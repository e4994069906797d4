-- ===== src/Protocol/Crc.antt =====
-- The checksums of src/vds_protocol.cc.
use Prim.Native.Nat.{bit_and, bit_xor}
use windows_vds.Prelude.{
  ℕ, zero, suc, ◌-◌, ◌/◌, ◌%◌, ◌^◌, [], ◌∷◌, ◌++◌, ltb, if◌then◌else◌, length, take, Bytes, codes,
  Result, ok, err,
}
use windows_vds.Protocol.Bits.{le_bytes}

abbrev pub output_crc_seed : ℕ
output_crc_seed = 0xeada2d49

abbrev pub feature_crc_seed : ℕ
feature_crc_seed = 0x2060efc3

-- `~x` on 32 bits.
unfoldable pub complement : ℕ → ℕ
complement x = 0xffff_ffff - x % 2 ^ 32

-- The loop of `crc32_table_entry`, with `rounds` bits left. `0u - (index & 1u)` is all ones or 0.
unfoldable pub crc32_bits : ℕ → ℕ → ℕ
crc32_bits zero index = index
crc32_bits (suc rounds) index =
    crc32_bits rounds (bit_xor (index / 2) (bit_and 0xedb88320 ((2 ^ 32 - index % 2) % 2 ^ 32)))

unfoldable pub crc32_table_entry : ℕ → ℕ
unfolding crc32_bits
crc32_table_entry index = crc32_bits 8 index

-- `kCrc32Table` holds the entry of each index, so a read computes it.
unfoldable pub crc32_step : ℕ → ℕ → ℕ
unfolding crc32_table_entry
crc32_step crc byte = bit_xor (crc / 2 ^ 8) (crc32_table_entry (bit_and (bit_xor crc byte) 0xff))

unfoldable pub crc32_loop : ℕ → Bytes → ℕ
unfolding crc32_step
crc32_loop crc [] = crc
crc32_loop crc (byte ∷ bytes) = crc32_loop (crc32_step crc byte) bytes

unfoldable pub crc32_seeded : Bytes → ℕ → ℕ
unfolding crc32_loop complement
crc32_seeded bytes seed = complement (crc32_loop (complement seed) bytes)

unfoldable pub output_crc32 : Bytes → ℕ
unfolding crc32_seeded
output_crc32 bytes = crc32_seeded bytes output_crc_seed

unfoldable pub feature_crc32 : Bytes → ℕ
unfolding crc32_seeded
feature_crc32 bytes = crc32_seeded bytes feature_crc_seed

-- The last four bytes of a report become the checksum of the bytes in front.
unfoldable pub fill_output_report_checksum : Bytes → Result Bytes
unfolding output_crc32 le_bytes
fill_output_report_checksum report =
    if ltb (length report) 4
    then err (codes "output report is too small for CRC")
    else let checked = take (length report - 4) report in
      ok (checked ++ le_bytes (output_crc32 checked))

unfoldable pub fill_feature_report_checksum : Bytes → Result Bytes
unfolding feature_crc32 le_bytes
fill_feature_report_checksum report =
    if ltb (length report) 4
    then err (codes "feature report is too small for CRC")
    else let checked = take (length report - 4) report in
      ok (checked ++ le_bytes (feature_crc32 checked))
