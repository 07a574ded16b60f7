-- ===== src/Client/Parse/Numbers.antt =====
-- A coordinate is read back.
use seamlessrdp.Base.{
  ℕ, ◌^◌, ◌≤◌, ◌<◌, ◌≡◌, refl, false, [], ◌∷◌, Bytes, All, arith, length, leb, ◌==◌,
}
use seamlessrdp.Base.Int.{ℤ, pos, negsuc, pos_part}
use seamlessrdp.Shell.Escape.{is_space}
use seamlessrdp.Shell.Number.{read_digits}
use seamlessrdp.Shell.Number.Printed.{read_digits-decimal}
use seamlessrdp.Vchannel.Serial.{decimal}
use seamlessrdp.Vchannel.Serial.Digits.{IsDigit, decimal-IsDigit, length-decimal}
use seamlessrdp.Vchannel.Format.{print_int}
use seamlessrdp.Client.Parse.{atoi, has_minus, coordinate, read_int}

-- a coordinate off the screen counts as 0
abbrev pub cut : ℤ → ℤ
cut (pos n) = pos n
cut (negsuc n) = pos 0

read_int-decimal : (n : ℕ) → n < 2 ^ 31 → read_int (decimal n) ≡ pos n
read_int-decimal n h =
    let same = read_digits-decimal n (omega arith) in
    let small : leb (2 ^ 31) (read_digits 10 0 (decimal n)) ≡ false = ground arith in
    rw (small, same) refl

atoi-digits : (s : Bytes) → All IsDigit s → 1 ≤ length s → atoi s ≡ read_int s
unfolding atoi is_space
atoi-digits [] h some_there = absurd (omega arith)
atoi-digits (c ∷ s) h some_there =
    let blank : is_space c ≡ false = ground (arith, h.0) in
    let minus : (c == b'-') ≡ false = ground (arith, h.0) in
    let plus : (c == b'+') ≡ false = ground (arith, h.0) in rw (atoi, blank, minus, plus) refl

has_minus-digits : (s : Bytes) → All IsDigit s → has_minus s ≡ false
unfolding has_minus
has_minus-digits [] h = refl
has_minus-digits (c ∷ s) h =
    let minus : (c == b'-') ≡ false = ground (arith, h.0) in rw minus (has_minus-digits s h.1)

pub coordinate-print_int : (a : ℤ) → pos_part a < 2 ^ 31 → coordinate (print_int a) ≡ cut a
unfolding coordinate print_int has_minus
coordinate-print_int (pos n) h =
    let digits = decimal-IsDigit n in
    rw
      (
        has_minus-digits (decimal n) digits,
        atoi-digits (decimal n) digits (length-decimal n).0,
        read_int-decimal n h,
      )
      refl
coordinate-print_int (negsuc n) h = refl
