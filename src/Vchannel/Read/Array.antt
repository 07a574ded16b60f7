-- ===== src/Vchannel/Read/Array.antt =====
-- The array operations of `vchannel_read`, on an array that starts with the bytes of interest.
use seamlessrdp.Base.{
  ℕ_discrete, ℕ, ◌+◌, ◌≡◌, ◌≢◌, refl, ap, [], ◌∷◌, ◌++◌, append_assoc, Option, none, some, Bytes,
  IsText, All, arith, length, drop, set, take-append_length, drop-append_length,
}
use seamlessrdp.Vchannel.Read.{find_newline, before, overwrite, move_down}

-- a text with no newline
abbrev pub IsLine : Bytes → Type 0
IsLine s = All (λ c. (c ≢ 0) × (c ≢ b'\n')) s

-- A text either has no newline or splits at the first one.
pub data Split (s : Bytes) : Type 0 where
  unbroken : IsLine s → Split s
  broken : (l rest : Bytes) → IsLine l → s ≡ l ++ b'\n' ∷ rest → Split s

pub Split-text : (s : Bytes) → IsText s → Split s
Split-text [] t = unbroken tt
Split-text (c ∷ s) t = elim (ℕ_discrete c b'\n') [
  | yes e ↦ broken [] s tt (ap (λ x. x ∷ s) e)
  | no ne ↦ elim (Split-text s t.1) [
    | unbroken h ↦ unbroken ((t.0, ne), h)
    | broken l rest h e ↦ broken (c ∷ l) rest ((t.0, ne), h) (ap (◌∷◌ c) e)
  ]
]

-- The search finds the newline behind a line, whatever follows it.
pub find_newline-broken :
    (l rest : Bytes) → IsLine l → find_newline (l ++ b'\n' ∷ rest) ≡ some (length l)
unfolding find_newline
find_newline-broken [] rest h = refl
find_newline-broken (c ∷ l) rest h = ground (arith, find_newline-broken l rest h.1, h.0)

before-zero : (o : Option ℕ) → before 0 o ≡ none
before-zero none = refl
before-zero (some i) = ground arith

-- In an array that starts with a line the search finds no newline before the line's end.
pub before-unbroken :
    (l tail : Bytes) → IsLine l → before (length l) (find_newline (l ++ tail)) ≡ none
unfolding find_newline
before-unbroken [] tail h = before-zero (find_newline tail)
before-unbroken (c ∷ l) tail h = ground (arith, before-unbroken l tail h.1, h.0)

-- Moving down what stands behind a newline, and what stands behind that.
pub move_down_lem :
    (l s tail : Bytes)
    → move_down (l ++ s ++ tail) (length l) (length s) ≡ s ++ drop (length s) (l ++ s ++ tail)
move_down_lem l s tail = rw (append_assoc, drop-append_length, take-append_length)

pub overwrite_lem :
    (s tail chunk : Bytes)
    → overwrite (s ++ tail) (length s) chunk
      ≡ s ++ (chunk ++ drop (length s + length chunk) (s ++ tail))
overwrite_lem s tail chunk = rw take-append_length

pub set-append_length :
    (l : Bytes) (a b : ℕ) (rest : Bytes) → set (l ++ a ∷ rest) (length l) b ≡ l ++ b ∷ rest
set-append_length [] a b rest = refl
set-append_length (c ∷ l) a b rest = ap (◌∷◌ c) (set-append_length l a b rest)
