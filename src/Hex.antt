-- ===== src/Hex.antt =====
-- src/vds_common.cc: decimal tests and hexadecimal printing.
use windows_vds.Prelude.{
  ℕ, zero, suc, ◌+◌, ◌/◌, ◌%◌, Bool, true, false, ◌&&◌, not, [], ◌∷◌, ◌++◌, ltb, ◌==◌,
  if◌then◌else◌, length, Bytes, codes, ◌-◌, ◌^◌,
}
use windows_vds.Prelude.Decimal.{is_digit}

-- `std::all_of` with `std::isdigit`.
unfoldable pub all_digits : Bytes → Bool
unfolding is_digit
all_digits [] = true
all_digits (c ∷ text) = is_digit c && all_digits text

unfoldable pub is_decimal_number : Bytes → Bool
unfolding all_digits
is_decimal_number [] = false
is_decimal_number (c ∷ text) = all_digits (c ∷ text)

-- `kHexDigits[d]`, for `d` below 16.
unfoldable pub hex_digit : ℕ → ℕ
hex_digit d = if ltb d 10 then b'0' + d else b'a' + (d - 10)

-- What `append_byte_hex_digits` appends.
unfoldable pub byte_hex_digits : ℕ → Bytes
unfolding hex_digit
byte_hex_digits value = hex_digit (value / 16 % 16) ∷ hex_digit (value % 16) ∷ []

unfoldable pub hex_u8 : ℕ → Bytes
unfolding byte_hex_digits
hex_u8 value = codes "0x" ++ byte_hex_digits value

unfoldable pub hex_u16 : ℕ → Bytes
unfolding hex_digit
hex_u16 value =
    codes "0x"
    ++ hex_digit (value / 2 ^ 12 % 16)
      ∷ hex_digit (value / 2 ^ 8 % 16)
      ∷ hex_digit (value / 2 ^ 4 % 16)
      ∷ hex_digit (value % 16)
      ∷ []

-- The loop of `hex_bytes`, with `count` bytes left to print; the flag is `index > 0`.
unfoldable pub hex_loop : ℕ → ℕ → Bool → Bytes → Bytes
unfolding byte_hex_digits
hex_loop count separator later [] = []
hex_loop zero separator later (b ∷ bytes) = []
hex_loop (suc count) separator later (b ∷ bytes) =
    (if later && not (separator == 0) then separator ∷ [] else [])
    ++ (byte_hex_digits b ++ hex_loop count separator true bytes)

unfoldable pub hex_bytes : Bytes → ℕ → ℕ → Bool → Bytes
unfolding hex_loop
hex_bytes bytes max_bytes separator append_ellipsis =
    hex_loop max_bytes separator false bytes
    ++ (if append_ellipsis && ltb max_bytes (length bytes) then codes " ..." else [])
