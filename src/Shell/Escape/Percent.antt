-- ===== src/Shell/Escape/Percent.antt =====
-- `unescape` reads percent-encoding, and what it does with an encoding that is cut off.
use seamlessrdp.Base.{
  All, ℕ, ◌+◌, ◌*◌, ◌<◌, ◌≡◌, ◌≢◌, refl, [], ◌∷◌, ◌++◌, none, some, Bytes, arith, ◌==◌, false, ◌||◌,
  ◌≤◌, length, Option-cases, inl, inr,
}
use seamlessrdp.Shell.Escape.{
  hex_value, is_space, scan_hex2, scan_spaced, escape_at, to_char, keep, unescape,
}

-- `s` is `t` with some bytes written as `%` and two hexadecimal digits; `%` itself always is.
pub data Encodes : Bytes → Bytes → Type 0 where
  nil : Encodes [] []
  literal : {c : ℕ} {s t : Bytes} → c ≢ b'%' → Encodes s t → Encodes (c ∷ s) (c ∷ t)
  escaped :
      {a b x y : ℕ} {s t : Bytes}
      → hex_value a ≡ some x
      → hex_value b ≡ some y
      → Encodes s t
      → Encodes (b'%' ∷ a ∷ b ∷ s) ((16 * x + y) ∷ t)

-- A text without `%` is its own encoding.
pub literals : (s : Bytes) → All (λ c. c ≢ b'%') s → Encodes s s
literals [] h = nil
literals (c ∷ s) h = literal h.0 (literals s h.1)

hex_value-lt : (c x : ℕ) → hex_value c ≡ some x → x < 16
unfolding hex_value
hex_value-lt c x h = ground arith

-- A hexadecimal digit is none of the bytes that a number may begin with otherwise.
record IsDigit (c : ℕ) : Type 0 where
  not_space : is_space c ≡ false
  not_plus : (c == b'+') ≡ false
  not_minus : (c == b'-') ≡ false
  not_x : (c == b'x' || c == b'X') ≡ false

hex_value-IsDigit : (c x : ℕ) → hex_value c ≡ some x → IsDigit c
unfolding hex_value is_space
hex_value-IsDigit c x h = record {
  not_space = ground arith;
  not_plus = ground arith;
  not_minus = ground arith;
  not_x = ground arith;
}

escape_at-two :
    (a b x y : ℕ) (s : Bytes)
    → hex_value a ≡ some x
    → hex_value b ≡ some y
    → escape_at (b'%' ∷ a ∷ b ∷ s) ≡ some (16 * x + y)
unfolding escape_at scan_spaced scan_hex2
escape_at-two a b x y s h k =
    let d = hex_value-IsDigit a x h in
    let e = hex_value-IsDigit b y k in ground (arith, d.not_space, d.not_plus, d.not_minus, e.not_x)

escape_at-one : (a x : ℕ) → hex_value a ≡ some x → escape_at (b'%' ∷ a ∷ []) ≡ some x
unfolding escape_at scan_spaced scan_hex2
escape_at-one a x h =
    let d = hex_value-IsDigit a x h in ground (arith, d.not_space, d.not_plus, d.not_minus)

unescape-literal : (c : ℕ) (s : Bytes) → c ≢ b'%' → unescape (c ∷ s) ≡ keep c (unescape s)
unfolding unescape escape_at
unescape-literal c [] h = ground arith
unescape-literal c (a ∷ []) h = ground arith
unescape-literal c (a ∷ b ∷ s) h = ground arith

-- Every percent-encoding of a text is read back as that text.
pub unescape-Encodes : {s t : Bytes} → Encodes s t → unescape s ≡ some t
unfolding unescape
unescape-Encodes nil = refl
unescape-Encodes (literal {c} {s} h e) = rw (unescape-literal c s h, unescape-Encodes e) refl
unescape-Encodes (escaped {a} {b} {x} {y} {s} h k e) =
    let small : to_char (16 * x + y) ≡ 16 * x + y =
      omega (arith, hex_value-lt a x h, hex_value-lt b y k) in
    rw (unescape, escape_at-two a b x y s h k, unescape-Encodes e, small) refl

-- Behind any percent-encoded text, a `%` with a single hexadecimal digit at the end of the string
-- makes the loop step over the terminating NUL.
unescape-overrun :
    {s t : Bytes} (a x : ℕ)
    → Encodes s t
    → hex_value a ≡ some x
    → unescape (s ++ b'%' ∷ a ∷ []) ≡ none
unfolding unescape
unescape-overrun a x nil h = rw (unescape, escape_at-one a x h) refl
unescape-overrun a x (literal {c} {s} ne e) h =
    rw (unescape-literal c (s ++ b'%' ∷ a ∷ []) ne, unescape-overrun a x e h) refl
unescape-overrun d z (escaped {a} {b} {x} {y} {s} h k e) g =
    rw (unescape, escape_at-two a b x y (s ++ b'%' ∷ d ∷ []) h k, unescape-overrun d z e g) refl

-- The result is never longer than the string, in whose copy it is written.
length-unescape : (s : Bytes) (t : Bytes) → unescape s ≡ some t → length t ≤ length s
unfolding unescape
length-unescape [] t h = ground arith
length-unescape (c ∷ []) t h = ground arith
length-unescape (c ∷ a ∷ []) t h = elim (Option-cases (escape_at (c ∷ a ∷ []))) [
  | inl e ↦ elim (Option-cases (unescape (a ∷ []))) [
    | inl n ↦ ground arith
    | inr (u, k) ↦ ground (arith, length-unescape (a ∷ []) u k)
  ]
  | inr (v, e) ↦ ground arith
]
length-unescape (c ∷ a ∷ b ∷ s) t h = elim (Option-cases (escape_at (c ∷ a ∷ b ∷ s))) [
  | inl e ↦ elim (Option-cases (unescape (a ∷ b ∷ s))) [
    | inl n ↦ ground arith
    | inr (u, k) ↦ ground (arith, length-unescape (a ∷ b ∷ s) u k)
  ]
  | inr (v, e) ↦ elim (Option-cases (unescape s)) [
    | inl n ↦ ground arith
    | inr (u, k) ↦ ground (arith, length-unescape s u k)
  ]
]
