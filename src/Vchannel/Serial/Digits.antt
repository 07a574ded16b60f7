-- ===== src/Vchannel/Serial/Digits.antt =====
-- The digits of a number in base ten.
use seamlessrdp.Base.{
  ℕ, zero, suc, ◌+◌, ◌/◌, ◌%◌, ◌≤◌, ◌<◌, ◌≡◌, refl, inl, inr, [], ◌∷◌, Bytes, All, ◌==◌, arith,
  length, Bool-cases,
}
use seamlessrdp.Vchannel.Serial.{decimal_onto, decimal}

-- a digit
abbrev pub IsDigit : ℕ → Type 0
IsDigit c = (b'0' ≤ c) × (c ≤ b'9')

decimal_onto-IsDigit :
    (fuel n : ℕ) (acc : Bytes) → All IsDigit acc → All IsDigit (decimal_onto fuel n acc)
unfolding decimal_onto
decimal_onto-IsDigit zero n acc h = h
decimal_onto-IsDigit (suc fuel) n acc h = elim (Bool-cases (n / 10 == 0)) [
  | inl last ↦ rw (decimal_onto, last) ((omega arith, omega arith), h)
  | inr more ↦
      rw (decimal_onto, more) (decimal_onto-IsDigit fuel (n / 10) _ ((omega arith, omega arith), h))
]

length-decimal_onto :
    (fuel n : ℕ) (acc : Bytes)
    → (length acc ≤ length (decimal_onto fuel n acc))
      × (length (decimal_onto fuel n acc) ≤ fuel + length acc)
unfolding decimal_onto
length-decimal_onto zero n acc = (omega arith, omega arith)
length-decimal_onto (suc fuel) n acc = elim (Bool-cases (n / 10 == 0)) [
  | inl last ↦ rw (decimal_onto, last) (omega arith, omega arith)
  | inr more ↦
      let ih = length-decimal_onto fuel (n / 10) ((b'0' + n % 10) ∷ acc) in
      rw (decimal_onto, more) (omega (arith, ih.0), omega (arith, ih.1))
]

decimal_onto-more : (fuel n : ℕ) (acc : Bytes) → length acc < length (decimal_onto (suc fuel) n acc)
unfolding decimal_onto
decimal_onto-more fuel n acc = elim (Bool-cases (n / 10 == 0)) [
  | inl last ↦ rw (decimal_onto, last) (omega arith)
  | inr more ↦
      let ih = length-decimal_onto fuel (n / 10) ((b'0' + n % 10) ∷ acc) in
      rw (decimal_onto, more) (omega (arith, ih.0))
]

decimal_lem : (n : ℕ) → decimal n ≡ decimal_onto 10 n []
unfolding decimal
decimal_lem n = refl

pub decimal-IsDigit : (n : ℕ) → All IsDigit (decimal n)
decimal-IsDigit n = rw (decimal_lem n) (decimal_onto-IsDigit 10 n [] tt)

-- a number has between one and ten digits
pub length-decimal : (n : ℕ) → (1 ≤ length (decimal n)) × (length (decimal n) ≤ 10)
length-decimal n = rw (decimal_lem n) (decimal_onto-more 9 n [], (length-decimal_onto 10 n []).1)
