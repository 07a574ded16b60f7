-- ===== src/Shell/Number/Printed.antt =====
-- A number that the conversions have printed is read back.
use Prim.Native.Nat.pow
use native.Mathlib.Nat.{div-div-eq-div-mul}
use seamlessrdp.Base.{
  ℕ, zero, suc, ◌+◌, ◌*◌, ◌/◌, ◌%◌, ◌^◌, ◌≤◌, ◌<◌, ◌≡◌, ◌≢◌, refl, sym, ap, ◌∙◌, true, false, inl,
  inr, some, [], ◌∷◌, Bytes, arith, ltb, leb, ◌==◌, Bool-cases, ℕ_discrete,
}
use seamlessrdp.Base.Int.{ℤ, pos, negsuc, pos_part, neg_part}
use seamlessrdp.Shell.Escape.{hex_value, is_space}
use seamlessrdp.Shell.Number.{read_digits, read_magnitude, read_signed, strtoul, strtol}
use seamlessrdp.Vchannel.Serial.{decimal, decimal_onto}
use seamlessrdp.Vchannel.Format.{hex_digit, hex_digits, print_hex, print_int}

digit_step :
    (d acc : ℕ) (rest : Bytes)
    → d < 10
    → read_digits 10 acc ((b'0' + d) ∷ rest) ≡ read_digits 10 (acc * 10 + d) rest
unfolding read_digits hex_value
digit_step d acc rest h =
    let value : hex_value (b'0' + d) ≡ some d = ground arith in
    let below : ltb d 10 ≡ true = ground arith in rw (read_digits, value, below) refl

read_digits-onto :
    (fuel n : ℕ) (acc : Bytes)
    → n < 10 ^ fuel
    → read_digits 10 0 (decimal_onto fuel n acc) ≡ read_digits 10 n acc
unfolding decimal_onto
read_digits-onto zero n acc h = let none_left : n ≡ 0 = omega arith in rw none_left refl
read_digits-onto (suc fuel) n acc h =
    let whole : n / 10 * 10 + n % 10 ≡ n = omega arith in
    elim (Bool-cases (n / 10 == 0)) [
      | inl last ↦
          let one : 0 * 10 + n % 10 ≡ n = ground arith in
          rw (decimal_onto, last)
            (digit_step (n % 10) 0 acc (omega arith) ∙ ap (λ k. read_digits 10 k acc) one)
      | inr more ↦
          rw (decimal_onto, more)
            (read_digits-onto fuel (n / 10) ((b'0' + n % 10) ∷ acc) (omega arith)
              ∙ digit_step (n % 10) (n / 10) acc (omega arith)
              ∙ ap (λ k. read_digits 10 k acc) whole)
    ]

pub read_digits-decimal : (n : ℕ) → n < 2 ^ 32 → read_digits 10 0 (decimal n) ≡ n
unfolding decimal read_digits
read_digits-decimal n h = read_digits-onto 10 n [] (omega arith)

hex_value-hex_digit : (d : ℕ) → d < 16 → hex_value (hex_digit d) ≡ some d
unfolding hex_value hex_digit
hex_value-hex_digit d h = ground arith

hex_step :
    (d acc : ℕ) (rest : Bytes)
    → d < 16
    → read_digits 16 acc (hex_digit d ∷ rest) ≡ read_digits 16 (acc * 16 + d) rest
unfolding read_digits
hex_step d acc rest h =
    let value : hex_value (hex_digit d) ≡ some d = hex_value-hex_digit d h in
    let below : ltb d 16 ≡ true = ground arith in rw (read_digits, value, below) refl

-- what stands behind `k` digits has been read
read_digits-high : (k n : ℕ) → read_digits 16 (n / 16 ^ k) (hex_digits k n) ≡ n
unfolding hex_digits read_digits
read_digits-high zero n = omega arith
read_digits-high (suc k) n =
    let deeper : n / 16 ^ suc k ≡ n / 16 ^ k / 16 =
      rw pow.suc (sym (div-div-eq-div-mul n (16 ^ k) 16)) in
    let same : n / 16 ^ suc k * 16 + n / 16 ^ k % 16 ≡ n / 16 ^ k = rw deeper (omega arith) in
    hex_step (n / 16 ^ k % 16) (n / 16 ^ suc k) (hex_digits k n) (omega arith)
    ∙ ap (λ a. read_digits 16 a (hex_digits k n)) same
    ∙ read_digits-high k n

read_digits-hex_digits : (n : ℕ) → n < 2 ^ 32 → read_digits 16 0 (hex_digits 8 n) ≡ n
read_digits-hex_digits n h =
    let none_left : n / 16 ^ 8 ≡ 0 = omega arith in
    sym (ap (λ a. read_digits 16 a (hex_digits 8 n)) none_left) ∙ read_digits-high 8 n

-- A decimal number is 0, or its first digit is not.
data Leads : Bytes → Type 0 where
  nought : Leads (b'0' ∷ [])
  leads : (c : ℕ) (s : Bytes) → b'1' ≤ c → c ≤ b'9' → Leads (c ∷ s)

decimal_onto-Leads :
    (fuel n : ℕ) (acc : Bytes) → 0 < n → n < 10 ^ fuel → Leads (decimal_onto fuel n acc)
unfolding decimal_onto
decimal_onto-Leads zero n acc some_there h = absurd (omega arith)
decimal_onto-Leads (suc fuel) n acc some_there h = elim (Bool-cases (n / 10 == 0)) [
  | inl last ↦
      let small : n / 10 ≡ 0 = ground arith in
      rw (decimal_onto, last) (leads (b'0' + n % 10) acc (omega arith) (omega arith))
  | inr more ↦
      let big : n / 10 ≢ 0 = ground arith in
      rw (decimal_onto, more) (decimal_onto-Leads fuel (n / 10) _ (omega arith) (omega arith))
]

decimal-Leads : (n : ℕ) → n < 2 ^ 32 → Leads (decimal n)
unfolding decimal decimal_onto
decimal-Leads n h = elim (ℕ_discrete n 0) [
  | yes z ↦ rw z nought
  | no nz ↦ decimal_onto-Leads 10 n [] (omega arith) (omega arith)
]

read_magnitude-Leads : (s : Bytes) → Leads s → read_magnitude s ≡ read_digits 10 0 s
unfolding read_magnitude
read_magnitude-Leads _ nought = refl
read_magnitude-Leads _ (leads c [] lo hi) = refl
read_magnitude-Leads _ (leads c (d ∷ s) lo hi) =
    let other : (c == b'0') ≡ false = ground arith in rw other refl

read_signed-Leads : (s : Bytes) → Leads s → read_signed s ≡ (false, read_digits 10 0 s)
unfolding read_signed is_space read_digits read_magnitude
read_signed-Leads _ nought = refl
read_signed-Leads _ (leads c s lo hi) =
    let blank : is_space c ≡ false = ground arith in
    let minus : (c == b'-') ≡ false = ground arith in
    let plus : (c == b'+') ≡ false = ground arith in
    rw (read_signed, blank, minus, plus, read_magnitude-Leads (c ∷ s) (leads c s lo hi)) refl

-- What `strtoul` and `strtol` make of a printed number, and that it can stand as a field.
pub strtoul-decimal : (n : ℕ) → n < 2 ^ 32 → strtoul (decimal n) ≡ n
unfolding strtoul
strtoul-decimal n h =
    let small : leb (2 ^ 32) n ≡ false = ground arith in
    rw (strtoul, read_signed-Leads (decimal n) (decimal-Leads n h), read_digits-decimal n h, small)
      refl

pub strtoul-print_hex : (n : ℕ) → n < 2 ^ 32 → strtoul (print_hex n) ≡ n
unfolding strtoul print_hex read_signed read_magnitude is_space
strtoul-print_hex n h =
    let small : leb (2 ^ 32) n ≡ false = ground arith in rw (read_digits-hex_digits n h, small) refl

pub strtol-print_int : (a : ℤ) → pos_part a + neg_part a < 2 ^ 31 → strtol (print_int a) ≡ a
unfolding strtol print_int read_signed is_space
strtol-print_int (pos n) h =
    let small : leb (2 ^ 31) n ≡ false = ground arith in
    rw
      (
        strtol,
        read_signed-Leads (decimal n) (decimal-Leads n (omega arith)),
        read_digits-decimal n (omega arith),
        small,
      )
      refl
strtol-print_int (negsuc n) h =
    let small : leb (2 ^ 31) (suc n) ≡ false = ground arith in
    rw
      (
        read_magnitude-Leads (decimal (suc n)) (decimal-Leads (suc n) (omega arith)),
        read_digits-decimal (suc n) (omega arith),
        small,
      )
      (ground arith)
