-- ===== src/Shared/Icon/Pixels.antt =====
-- When the pixels of an icon fit the buffer.
use seamlessrdp.Base.{
  Bool-cases, inl, inr, zero, suc, ◌-◌, [], ◌∷◌, Option, none, length, ℕ, ◌+◌, ◌*◌, ◌/◌, ◌%◌, ◌≤◌,
  ◌<◌, ◌≡◌, ◌≢◌, ◌↔◌, refl, true, false, some, Bytes, ltb, if◌then◌else◌, ==_iff, arith,
}
use seamlessrdp.Shared.Icon.{
  Bitmap, Answers, pixels, overrun, convert, bits_size, extract_bits, extract_icon,
}

-- Every call succeeds, and the two bitmaps have the size `b`.
abbrev pub readable : Bitmap → Bytes → Bytes → Answers
readable b ms cs = record {
  info = true;
  mask_bmp = some b;
  color_bmp = some b;
  mask_buf = true;
  color_buf = true;
  dc = true;
  mask_bits = some ms;
  color_bits = some cs;
}

not_ltb : (a b : ℕ) → b ≤ a → ltb a b ≡ false
not_ltb a b h = ground arith

-- How the loop ends: with all pixels written, or past the end of the buffer.
data Converts (left room : ℕ) : Option Bytes → Type 0 where
  written : (out : Bytes) → left * 4 ≤ room → length out ≡ left * 4 → Converts left room (some out)
  past : room < left * 4 → Converts left room none

Converts-cons :
    (left room p q r s : ℕ) (rest : Option Bytes)
    → Converts left (room - 4) rest
    → Converts (suc left) room (
        if ltb room 4
        then none
        else elim rest [ none ↦ none | some out ↦ some (p ∷ q ∷ r ∷ s ∷ out) ])
Converts-cons left room p q r s _ (written out fits size) = elim (Bool-cases (ltb room 4)) [
  | inl none_left ↦ rw none_left (past (ground arith))
  | inr some_left ↦
      rw some_left (written (p ∷ q ∷ r ∷ s ∷ out) (ground arith) (omega (arith, size)))
]
Converts-cons left room p q r s _ (past long) = elim (Bool-cases (ltb room 4)) [
  | inl none_left ↦ rw none_left (past (ground arith))
  | inr some_left ↦ rw some_left (past (omega (arith, long)))
]

convert-Converts :
    (left room : ℕ) (ms cs : Bytes)
    → length ms ≡ left * 4
    → length cs ≡ left * 4
    → Converts left room (convert left room ms cs)
unfolding convert
convert-Converts zero room ms cs h k = written [] (omega arith) refl
convert-Converts (suc left) room (m0 ∷ m1 ∷ m2 ∷ m3 ∷ ms) (c0 ∷ c1 ∷ c2 ∷ c3 ∷ cs) h k =
    Converts-cons left room c2 c1 c0 (0xff - (m0 + m1 + m2) / 3) (convert left (room - 4) ms cs)
      (convert-Converts left (room - 4) ms cs (omega (arith, h)) (omega (arith, k)))
convert-Converts (suc left) room [] cs h k = absurd (omega (arith, h))
convert-Converts (suc left) room (m0 ∷ []) cs h k = absurd (omega (arith, h))
convert-Converts (suc left) room (m0 ∷ m1 ∷ []) cs h k = absurd (omega (arith, h))
convert-Converts (suc left) room (m0 ∷ m1 ∷ m2 ∷ []) cs h k = absurd (omega (arith, h))
convert-Converts (suc left) room (m0 ∷ m1 ∷ m2 ∷ m3 ∷ ms) [] h k = absurd (omega (arith, k))
convert-Converts (suc left) room (m0 ∷ m1 ∷ m2 ∷ m3 ∷ ms) (c0 ∷ []) h k = absurd (omega (arith, k))
convert-Converts (suc left) room (m0 ∷ m1 ∷ m2 ∷ m3 ∷ ms) (c0 ∷ c1 ∷ []) h k =
    absurd (omega (arith, k))
convert-Converts (suc left) room (m0 ∷ m1 ∷ m2 ∷ m3 ∷ ms) (c0 ∷ c1 ∷ c2 ∷ []) h k =
    absurd (omega (arith, k))

overrun_iff :
    (left room : ℕ) (converted : Option Bytes)
    → Converts left room converted
    → ((elim converted [ none ↦ overrun | some out ↦ pixels out ]) ≡ overrun) ↔ (room < left * 4)
overrun_iff left room _ (written out fits size) =
    (λ e. cc, λ long. absurd (omega (arith, long, fits)))
overrun_iff left room _ (past long) = (λ e. long, λ h. refl)

-- The length of a row of pixels with its padding: a multiple of four.
pub record IsRow (width row : ℕ) : Type 0 where
  pub whole : row % 4 ≡ 0
  pub enough : width ≤ row
  pub least : row < width + 4

row-bits_size : (b : Bitmap) (row : ℕ) → IsRow b.width row → bits_size b ≡ row * b.height * 4
row-bits_size b row r =
    let same : (b.width + 3) / 4 * 4 ≡ row = omega (arith, r.whole, r.enough, r.least) in
    rw same refl

-- Let an icon be readable, both bitmaps have one size and the test of this size be passed, and let the
-- arrays of the mask and of the colours have the padded rows that were asked for. The loop over the
-- pixels writes past the end of the buffer exactly if the rows, padded to a multiple of four pixels, take
-- more bytes than the buffer holds.
pub extract_icon-overrun_iff :
    (b : Bitmap) (row : ℕ) (ms cs : Bytes) (maxlen : ℕ)
    → IsRow b.width row
    → b.width * b.height * 4 ≤ maxlen
    → length ms ≡ row * b.height * 4
    → length cs ≡ row * b.height * 4
    → (extract_icon (readable b ms cs) maxlen ≡ overrun) ↔ (maxlen < row * b.height * 4)
unfolding extract_icon extract_bits
extract_icon-overrun_iff b row ms cs maxlen r passes h k =
    let n = row * b.height in
    let count : bits_size b / 4 ≡ n = rw (row-bits_size b row r) (omega arith) in
    rw
      (
        (==_iff b.width b.width).1 refl,
        (==_iff b.height b.height).1 refl,
        not_ltb maxlen (b.width * b.height * 4) passes,
        count,
      )
      (overrun_iff n maxlen (convert n maxlen ms cs) (convert-Converts n maxlen ms cs h k))

-- Of an icon whose width is a multiple of four pixels nothing is written past the end.
extract_icon-aligned :
    (b : Bitmap) (ms cs : Bytes) (maxlen : ℕ)
    → b.width % 4 ≡ 0
    → b.width * b.height * 4 ≤ maxlen
    → length ms ≡ b.width * b.height * 4
    → length cs ≡ b.width * b.height * 4
    → extract_icon (readable b ms cs) maxlen ≢ overrun
extract_icon-aligned b ms cs maxlen aligned passes h k over =
    let row : IsRow b.width b.width = record {
      whole = aligned;
      enough = omega arith;
      least = omega arith;
    } in
    let long = (extract_icon-overrun_iff b b.width ms cs maxlen row passes h k).0 over in
    absurd (omega (arith, long, passes))
