-- ===== src/Shell/Number.antt =====
-- The numbers in commands: `strtoul` and `strtol` with base 0, as `process_cmds` of
-- ServerExe/main.c calls them. A `long` of Windows has 32 bits.
pub mod Printed
use seamlessrdp.Base.{
  ℕ, ◌+◌, ◌-◌, ◌*◌, ◌%◌, ◌^◌, Bool, true, false, ◌&&◌, ◌||◌, [], ◌∷◌, none, some, Bytes, ltb, leb,
  ◌==◌, if◌then◌else◌,
}
use seamlessrdp.Base.Int.{ℤ, pos, negsuc}
use seamlessrdp.Shell.Escape.{hex_value, is_space}

-- the digits of the number in the base, as far as they go
unfoldable pub read_digits : ℕ → ℕ → Bytes → ℕ
read_digits base acc [] = acc
read_digits base acc (c ∷ cs) = elim (hex_value c) [
  | none ↦ acc
  | some d ↦ elim (ltb d base) [ true ↦ read_digits base (acc * base + d) cs | false ↦ acc ]
]

abbrev is_x : ℕ → Bool
is_x c = c == b'x' || c == b'X'

-- Base 0: "0x" before a digit, or "0", or neither. (A "0x" with no digit behind it is the number 0.)
unfoldable pub read_magnitude : Bytes → ℕ
unfolding read_digits
read_magnitude (z ∷ x ∷ cs) =
    if z == b'0' && is_x x
    then read_digits 16 0 cs
    else if z == b'0'
    then read_digits 8 0 (x ∷ cs)
    else read_digits 10 0 (z ∷ x ∷ cs)
read_magnitude cs = read_digits 10 0 cs

-- Whether there is a minus sign, and the magnitude, behind white space.
unfoldable pub read_signed : Bytes → Bool × ℕ
read_signed [] = (false, 0)
read_signed (c ∷ cs) =
    let rest = read_signed cs in
    if is_space c
    then rest
    else if c == b'-'
    then (true, read_magnitude cs)
    else if c == b'+'
    then (false, read_magnitude cs)
    else (false, read_magnitude (c ∷ cs))

-- `ULONG_MAX` out of range; a minus sign negates modulo 2 ^ 32
unfoldable pub strtoul : Bytes → ℕ
strtoul s =
    let (minus, n) = read_signed s in
    if leb (2 ^ 32) n then 2 ^ 32 - 1 else if minus then (2 ^ 32 - n) % 2 ^ 32 else n

-- `LONG_MAX` or `LONG_MIN` out of range
unfoldable pub strtol : Bytes → ℤ
strtol s =
    let (minus, n) = read_signed s in
    if minus
    then (if leb (2 ^ 31) n then negsuc (2 ^ 31 - 1) else if n == 0 then pos 0 else negsuc (n - 1))
    else (if leb (2 ^ 31) n then pos (2 ^ 31 - 1) else pos n)
