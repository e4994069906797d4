-- ===== src/Hcd/Profile.antt =====
-- What tells the two controllers apart: module/vds_controller.h, module/dualsense.c and
-- module/dualsense_edge.c.
use windows_vds.Prelude.{ℕ, not, ◌&&◌, Option, none, some, ◌==◌, if◌then◌else◌, Bytes, codes}
use windows_vds.Hcd.Descriptors.{
  ds5_configuration_descriptor, ds5_hid_descriptor, ds5_hid_report_descriptor,
  dse_configuration_descriptor, dse_hid_descriptor, dse_hid_report_descriptor,
}

-- The descriptors carry their sizes with them.
pub record VdsControllerProfile : Type 0 where
  pub profile : ℕ
  pub product_id : ℕ
  pub device_version : ℕ
  pub device_class : ℕ
  pub device_subclass : ℕ
  pub device_protocol : ℕ
  pub max_packet_size0 : ℕ
  pub num_configurations : ℕ
  pub configuration_value : ℕ
  pub manufacturer : Bytes
  pub product : Bytes
  pub configuration_descriptor : Bytes
  pub hid_descriptor : Bytes
  pub hid_report_descriptor : Bytes
  pub audio_control_interface : ℕ
  pub audio_out_interface : ℕ
  pub audio_in_interface : ℕ
  pub hid_interface : ℕ
  pub audio_out_endpoint : ℕ
  pub audio_in_endpoint : ℕ
  pub hid_in_endpoint : ℕ
  pub hid_out_endpoint : ℕ
  pub hid_in_interval_us : ℕ
  pub speaker_feature_unit : ℕ
  pub mic_feature_unit : ℕ

abbrev pub vds_profile_ds5 : ℕ
vds_profile_ds5 = 0

abbrev pub vds_profile_dse : ℕ
vds_profile_dse = 1

unfoldable pub vds_dualsense_profile : VdsControllerProfile
vds_dualsense_profile = record {
  profile = 0;
  product_id = 0x0ce6;
  device_version = 0x0100;
  device_class = 0x00;
  device_subclass = 0x00;
  device_protocol = 0x00;
  max_packet_size0 = 64;
  num_configurations = 1;
  configuration_value = 1;
  manufacturer = codes "Sony Interactive Entertainment";
  product = codes "DualSense Wireless Controller";
  configuration_descriptor = ds5_configuration_descriptor;
  hid_descriptor = ds5_hid_descriptor;
  hid_report_descriptor = ds5_hid_report_descriptor;
  audio_control_interface = 0;
  audio_out_interface = 1;
  audio_in_interface = 2;
  hid_interface = 3;
  audio_out_endpoint = 0x01;
  audio_in_endpoint = 0x82;
  hid_in_endpoint = 0x84;
  hid_out_endpoint = 0x03;
  hid_in_interval_us = 1000;
  speaker_feature_unit = 2;
  mic_feature_unit = 5;
}

unfoldable pub vds_dualsense_edge_profile : VdsControllerProfile
vds_dualsense_edge_profile = record {
  profile = 1;
  product_id = 0x0df2;
  device_version = 0x0100;
  device_class = 0x00;
  device_subclass = 0x00;
  device_protocol = 0x00;
  max_packet_size0 = 64;
  num_configurations = 1;
  configuration_value = 1;
  manufacturer = codes "Sony Interactive Entertainment";
  product = codes "DualSense Edge Wireless Controller";
  configuration_descriptor = dse_configuration_descriptor;
  hid_descriptor = dse_hid_descriptor;
  hid_report_descriptor = dse_hid_report_descriptor;
  audio_control_interface = 0;
  audio_out_interface = 1;
  audio_in_interface = 2;
  hid_interface = 3;
  audio_out_endpoint = 0x01;
  audio_in_endpoint = 0x82;
  hid_in_endpoint = 0x84;
  hid_out_endpoint = 0x03;
  hid_in_interval_us = 1000;
  speaker_feature_unit = 2;
  mic_feature_unit = 5;
}

pub data AudioFeature : Type 0 where
  speaker : AudioFeature
  mic : AudioFeature

-- `none` is the index -1.
unfoldable pub audio_feature_index : VdsControllerProfile → ℕ → Option AudioFeature
audio_feature_index p entity =
    if entity == p.speaker_feature_unit
    then some speaker
    else (if not (p.mic_feature_unit == 0xff) && (entity == p.mic_feature_unit)
        then some mic
        else none)
