-- ===== src/Vchannel/Text/Filter.antt =====
-- A filtered text can stand as a field of a message.
use seamlessrdp.Base.{
  ℕ, ◌≤◌, ◌≡◌, ◌≢◌, refl, ap, suc, ◌⊎◌, inl, inr, [], ◌∷◌, Bytes, All, arith, length, Bool-cases,
  ltb, ◌==◌, ◌||◌,
}
use seamlessrdp.Vchannel.Text.{filter_byte, strfilter}

-- No control character, and no comma.
abbrev pub IsPlain : ℕ → Type 0
IsPlain c = (0x20 ≤ c) × (c ≢ b',')

-- Bytes that are changed and bytes that are kept, one after the other.
pub data Filtered : Bytes → Bytes → Type 0 where
  nil : Filtered [] []
  keep : {c : ℕ} {s t : Bytes} → IsPlain c → Filtered s t → Filtered (c ∷ s) (c ∷ t)
  replace : {c : ℕ} {s t : Bytes} → ¬ IsPlain c → Filtered s t → Filtered (c ∷ s) (b'_' ∷ t)

filter_byte-IsPlain : (c : ℕ) → IsPlain (filter_byte c)
unfolding filter_byte
filter_byte-IsPlain c = ground arith

filter_byte_id : (c : ℕ) → IsPlain c → filter_byte c ≡ c
unfolding filter_byte
filter_byte_id c p = ground arith

-- Every text comes out with as many bytes, none of which is a control character or a comma.
pub strfilter-IsPlain : (s : Bytes) → All IsPlain (strfilter s) × (length (strfilter s) ≡ length s)
unfolding strfilter
strfilter-IsPlain [] = (tt, refl)
strfilter-IsPlain (c ∷ s) =
    let (plain, same) = strfilter-IsPlain s in ((filter_byte-IsPlain c, plain), ap suc same)

filter_byte_cases :
    (c : ℕ) → (IsPlain c × (filter_byte c ≡ c)) ⊎ ((¬ IsPlain c) × (filter_byte c ≡ b'_'))
unfolding filter_byte
filter_byte_cases c = elim (Bool-cases (ltb c 0x20 || c == b',')) [
  | inl bad ↦ inr (ground arith, rw bad)
  | inr good ↦ inl (ground arith, rw good)
]

-- The text that comes out is the one that went in, with `_` in the place of each control character
-- and of each comma.
pub strfilter-Filtered : (s : Bytes) → Filtered s (strfilter s)
unfolding strfilter
strfilter-Filtered [] = nil
strfilter-Filtered (c ∷ s) = elim (filter_byte_cases c) [
  | inl (plain, same) ↦ rw same (keep plain (strfilter-Filtered s))
  | inr (bad, other) ↦ rw other (replace bad (strfilter-Filtered s))
]

-- A text of which no byte is a control character or a comma is left as it is.
pub strfilter-id : (s : Bytes) → All IsPlain s → strfilter s ≡ s
unfolding strfilter
strfilter-id [] p = refl
strfilter-id (c ∷ s) p = rw (filter_byte_id c p.0, strfilter-id s p.1)
