-- ===== src/Hcd/Hub.antt =====
-- The root hub of the controller, in module/vds_hcd_core.c.
use windows_vds.Prelude.{
  ℕ, true, false, not, [], ◌∷◌, ◌++◌, ◌+◌, ◌==◌, if◌then◌else◌, Bytes, Option, none, some,
}
use windows_vds.Hcd.Types.{success, epipe}
use windows_vds.Hcd.Usb.{le16}
use windows_vds.Hcd.Device.{VdsHcdDev, PortStatus}

pub data HubRequest : Type 0 where
  clear_hub_feature : HubRequest
  get_hub_descriptor : HubRequest
  get_hub_status : HubRequest
  get_port_status : HubRequest
  clear_port_feature : HubRequest
  set_port_feature : HubRequest
  other_request : HubRequest

-- The nine bytes that its length tells; the rest of the struct is zero. HUB_CHAR_INDV_PORT_LPSM is
-- 0x0001, HUB_CHAR_COMMON_OCPM is 0.
abbrev pub hub_descriptor : Bytes
hub_descriptor = 9 ∷ 0x29 ∷ 1 ∷ 0x01 ∷ 0x00 ∷ 0 ∷ 0 ∷ 0x00 ∷ 0xff ∷ []

unfoldable pub port_word : PortStatus → ℕ
port_word p =
    (if p.connection then 0x0001 else 0)
    + (if p.enable then 0x0002 else 0)
    + (if p.reset then 0x0010 else 0)
    + (if p.power then 0x0100 else 0)
    + (if p.high_speed then 0x0400 else 0)

unfoldable pub change_word : PortStatus → ℕ
change_word p =
    (if p.c_connection then 0x0001 else 0)
    + (if p.c_enable then 0x0002 else 0)
    + (if p.c_suspend then 0x0004 else 0)
    + (if p.c_over_current then 0x0008 else 0)
    + (if p.c_reset then 0x0010 else 0)

-- The byte with the bit of port 1, where a change is pending.
unfoldable pub hub_status_data : VdsHcdDev → Option ℕ
hub_status_data dev = if change_word dev.port_status == 0 then none else some 2

-- `none` is a feature that the switch has not.
unfoldable pub clear_feature : PortStatus → ℕ → Option PortStatus
clear_feature p feature =
    if feature == 1
    then some (record p { enable = false })
    else (if feature == 8
        then some (record p { power = false })
        else (if feature == 16
            then some (record p { c_connection = false })
            else (if feature == 17
                then some (record p { c_enable = false })
                else (if feature == 18
                    then some (record p { c_suspend = false })
                    else (if feature == 19
                        then some (record p { c_over_current = false })
                        else (if feature == 20
                            then some (record p { c_reset = false })
                            else none))))))

unfoldable pub reset_port : PortStatus → PortStatus
reset_port p =
    if p.connection
    then record p { reset = false; enable = true; high_speed = true; c_reset = true }
    else p

unfoldable pub set_feature : PortStatus → ℕ → Option PortStatus
set_feature p feature =
    if feature == 8
    then some (record p { power = true })
    else (if feature == 4 then some (reset_port p) else none)

unfoldable pub change_port : VdsHcdDev → ℕ → Option PortStatus → VdsHcdDev × Bytes × ℕ
change_port dev index none = (dev, [], epipe)
change_port dev index (some p) =
    if not (index == 1) then (dev, [], epipe) else (record dev { port_status = p }, [], success)

-- The new state, the bytes written to the buffer, and the status.
unfoldable pub hub_control : VdsHcdDev → HubRequest → ℕ → ℕ → VdsHcdDev × Bytes × ℕ
hub_control dev clear_hub_feature value index = (dev, [], success)
hub_control dev get_hub_descriptor value index = (dev, hub_descriptor, success)
hub_control dev get_hub_status value index = (dev, 0 ∷ 0 ∷ 0 ∷ 0 ∷ [], success)
hub_control dev get_port_status value index =
    if not (index == 1)
    then (dev, [], epipe)
    else (dev, le16 (port_word dev.port_status) ++ le16 (change_word dev.port_status), success)
hub_control dev clear_port_feature value index =
    change_port dev index (clear_feature dev.port_status value)
hub_control dev set_port_feature value index =
    change_port dev index (set_feature dev.port_status value)
hub_control dev other_request value index = (dev, [], epipe)
