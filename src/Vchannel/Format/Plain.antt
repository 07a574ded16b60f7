-- ===== src/Vchannel/Format/Plain.antt =====
-- What the conversions print are fields: printable bytes without a comma, not too many.
use seamlessrdp.Base.{
  ℕ, zero, suc, ◌/◌, ◌%◌, ◌^◌, ◌≤◌, ◌≡◌, refl, ap, List, [], ◌∷◌, Bytes, All, arith, length,
}
use seamlessrdp.Base.Int.{ℤ, pos, negsuc}
use seamlessrdp.Vchannel.Text.Filter.{IsPlain}
use seamlessrdp.Vchannel.Serial.{decimal}
use seamlessrdp.Vchannel.Serial.Digits.{IsDigit, decimal-IsDigit, length-decimal}
use seamlessrdp.Vchannel.Format.{hex_digit, hex_digits, print_hex, print_int}

-- A field of at most `n` bytes.
pub record IsField (n : ℕ) (s : Bytes) : Type 0 where
  pub plain : All IsPlain s
  pub short : length s ≤ n

pub All-map {κ μ} :
    {A : Type 0} (P : A → Type κ) (Q : A → Type μ) (xs : List A)
    → ((x : A) → P x → Q x)
    → All P xs
    → All Q xs
All-map P Q [] f h = tt
All-map P Q (x ∷ xs) f (h, hs) = (f x h, All-map P Q xs f hs)

pub hex_digit-IsPlain : (d : ℕ) → IsPlain (hex_digit d)
unfolding hex_digit
hex_digit-IsPlain d = ground arith

hex_digits-IsPlain : (k n : ℕ) → All IsPlain (hex_digits k n)
unfolding hex_digits
hex_digits-IsPlain zero n = tt
hex_digits-IsPlain (suc k) n = (hex_digit-IsPlain (n / 16 ^ k % 16), hex_digits-IsPlain k n)

length-hex_digits : (k n : ℕ) → length (hex_digits k n) ≡ k
unfolding hex_digits
length-hex_digits zero n = refl
length-hex_digits (suc k) n = ap suc (length-hex_digits k n)

pub print_hex-IsField : (n : ℕ) → IsField 10 (print_hex n)
unfolding print_hex
print_hex-IsField n = record {
  plain = ((omega arith, omega arith), ((omega arith, omega arith), hex_digits-IsPlain 8 n));
  short = omega (arith, length-hex_digits 8 n);
}

pub decimal-IsField : (n : ℕ) → IsField 10 (decimal n)
decimal-IsField n = record {
  plain = All-map IsDigit IsPlain (decimal n) (λ c d. omega arith) (decimal-IsDigit n);
  short = (length-decimal n).1;
}

pub print_int-IsField : (a : ℤ) → IsField 11 (print_int a)
unfolding print_int
print_int-IsField (pos n) =
    let f = decimal-IsField n in record { plain = f.plain; short = omega (arith, f.short) }
print_int-IsField (negsuc n) =
    let f = decimal-IsField (suc n) in
    record { plain = ((omega arith, omega arith), f.plain); short = omega (arith, f.short) }
