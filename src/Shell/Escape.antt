-- ===== src/Shell/Escape.antt =====
-- `unescape` of ServerExe/main.c.
pub mod Percent
use seamlessrdp.Base.{
  ℕ, ◌+◌, ◌-◌, ◌*◌, ◌%◌, ◌^◌, Bool, true, false, ◌&&◌, ◌||◌, List, [], ◌∷◌, Option, none, some,
  Bytes, ltb, leb, ◌==◌, if◌then◌else◌,
}

-- the digit that a byte stands for in base 16
unfoldable pub hex_value : ℕ → Option ℕ
hex_value c =
    if leb b'0' c && leb c b'9'
    then some (c - b'0')
    else if leb b'A' c && leb c b'F'
    then some (c - b'A' + 10)
    else if leb b'a' c && leb c b'f'
    then some (c - b'a' + 10)
    else none

-- `isspace` in the C locale
unfoldable pub is_space : ℕ → Bool
is_space c = c == b' ' || (leb 9 c && leb c 13)

-- one more digit of a number, in a width of one
abbrev pub one_digit : Bytes → Option ℕ
one_digit [] = none
one_digit (c ∷ cs) = hex_value c

abbrev starts_with_x : Bytes → Bool
starts_with_x [] = false
starts_with_x (c ∷ cs) = c == b'x' || c == b'X'

-- `-d` as an `unsigned`
abbrev negate : ℕ → ℕ
negate d = (2 ^ 32 - d) % 2 ^ 32

-- "%2X" behind white space: at most two bytes of a sign, a prefix and digits. A minus sign negates an
-- `unsigned`; the prefix "0x" leaves no room for a digit.
unfoldable pub scan_hex2 : Bytes → Option ℕ
scan_hex2 [] = none
scan_hex2 (c ∷ cs) =
    if c == b'+'
    then one_digit cs
    else if c == b'-'
    then elim (one_digit cs) [ none ↦ none | some d ↦ some (negate d) ]
    else elim (hex_value c) [
      | none ↦ none
      | some d ↦
          if c == b'0' && starts_with_x cs
          then none
          else elim (one_digit cs) [ none ↦ some d | some e ↦ some (16 * d + e) ]
    ]

-- `sscanf` skips white space before a number.
unfoldable pub scan_spaced : Bytes → Option ℕ
scan_spaced [] = none
scan_spaced (c ∷ cs) = let rest = scan_spaced cs in if is_space c then rest else scan_hex2 (c ∷ cs)

-- the two tests at a position of the string: the value of the escape that starts there
unfoldable pub escape_at : Bytes → Option ℕ
escape_at [] = none
escape_at (c ∷ cs) = if c == b'%' then scan_spaced cs else none

-- `pd[0] = c`
abbrev pub to_char : ℕ → ℕ
to_char c = c % 256

abbrev pub keep : ℕ → Option Bytes → Option Bytes
keep c none = none
keep c (some s) = some (c ∷ s)

-- The bytes written, without the NUL behind them. An escape advances by three bytes, whatever its
-- length: `none` is a step over the terminating NUL, behind which the loop reads on.
unfoldable pub unescape : Bytes → Option Bytes
unescape [] = some []
unescape (c ∷ []) = elim (escape_at (c ∷ [])) [ none ↦ keep c (some []) | some v ↦ none ]
unescape (c ∷ a ∷ []) = elim (escape_at (c ∷ a ∷ [])) [
  | none ↦ keep c (unescape (a ∷ []))
  | some v ↦ none
]
unescape (c ∷ a ∷ b ∷ s) = elim (escape_at (c ∷ a ∷ b ∷ s)) [
  | none ↦ keep c (unescape (a ∷ b ∷ s))
  | some v ↦ keep (to_char v) (unescape s)
]
