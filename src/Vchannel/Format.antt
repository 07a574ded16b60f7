-- ===== src/Vchannel/Format.antt =====
-- The conversions in the formats of `vchannel_write`'s callers, as Microsoft's runtime carries them out.
pub mod Plain
use seamlessrdp.Base.{
  ℕ, zero, suc, ◌+◌, ◌-◌, ◌/◌, ◌%◌, ◌^◌, [], ◌∷◌, ◌++◌, Bytes, codes, ltb, if◌then◌else◌,
}
use seamlessrdp.Base.Int.{ℤ, pos, negsuc}
use seamlessrdp.Vchannel.Serial.{decimal}

unfoldable pub hex_digit : ℕ → ℕ
hex_digit d = if ltb d 10 then b'0' + d else b'a' + (d - 10)

-- the `k` low digits
unfoldable pub hex_digits : ℕ → ℕ → Bytes
hex_digits zero n = []
hex_digits (suc k) n = hex_digit (n / 16 ^ k % 16) ∷ hex_digits k n

-- "0x%08x" and "0x%08lx": an `unsigned` and a `long` of 32 bits have eight digits at most
unfoldable pub print_hex : ℕ → Bytes
print_hex n = codes "0x" ++ hex_digits 8 n

-- "%d"
unfoldable pub print_int : ℤ → Bytes
print_int (pos n) = decimal n
print_int (negsuc n) = b'-' ∷ decimal (suc n)

-- the conversion of a machine word to `int`
unfoldable pub to_int : ℕ → ℤ
to_int n = let low = n % 2 ^ 32 in if ltb low (2 ^ 31) then pos low else negsuc (2 ^ 32 - 1 - low)
