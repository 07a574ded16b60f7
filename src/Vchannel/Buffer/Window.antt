-- ===== src/Vchannel/Buffer/Window.antt =====
-- The unread bytes of the shared buffer, oldest first, and what a single write or read does to them.
use mathlib.Core.Path.{ap₂}
use native.Mathlib.Nat.{mod-eq_of_lt, mod_self}
use native.Mathlib.Numerals.{add-one}
use seamlessrdp.Base.{
  dec_lt, ℕ, zero, suc, ◌+◌, ◌-◌, ◌%◌, ◌^◌, ◌<◌, ◌≡◌, ◌≢◌, refl, ap, ◌⊎◌, inl, inr, [], ◌∷◌, ◌++◌,
  Bytes, arith, leb, ltb, if◌then◌else◌, length, get_or, set, length-set, get_or-set_self,
  get_or-set_ne,
}
use seamlessrdp.Vchannel.Buffer.{Buffer, IsValid, advance, put_byte, peek, skip}

pub advance_cases :
    (size p : ℕ)
    → size < 2 ^ 31
    → p < size
    → ((suc p < size) × (advance size p ≡ suc p)) ⊎ ((suc p ≡ size) × (advance size p ≡ 0))
unfolding advance
advance_cases size p s h =
    let plain : (p + 1) % 2 ^ 32 ≡ suc p = omega arith in
    elim (dec_lt (suc p) size) [
      | yes q ↦ inl (q, rw plain (mod-eq_of_lt q))
      | no q ↦
          inr (omega arith, rw plain (let e : suc p ≡ size = omega arith in rw e (mod_self size)))
    ]

-- position `k` of a ring of `size` bytes, for `k` less than twice the size
abbrev pub wrap : ℕ → ℕ → ℕ
wrap size k = if ltb k size then k else k - size

-- the `n` bytes from position `p` on
abbrev pub window : Bytes → ℕ → ℕ → ℕ → Bytes
window bytes size p zero = []
window bytes size p (suc n) = get_or bytes p 0 ∷ window bytes size (advance size p) n

-- how many bytes are unread
abbrev pub used : Buffer → ℕ
used b = if leb b.pr b.pw then b.pw - b.pr else b.size + b.pw - b.pr

abbrev pub contents : Buffer → Bytes
contents b = window b.bytes b.size b.pr (used b)

pub length-window : (bytes : Bytes) (size p n : ℕ) → length (window bytes size p n) ≡ n
length-window bytes size p zero = refl
length-window bytes size p (suc n) = ap suc (length-window bytes size (advance size p) n)

-- A byte written just past a window extends it.
window-set :
    (bytes : Bytes) (size x n p i : ℕ)
    → length bytes ≡ size
    → size < 2 ^ 31
    → p < size
    → n < size
    → i ≡ wrap size (p + n)
    → window (set bytes i x) size p (suc n) ≡ window bytes size p n ++ x ∷ []
window-set bytes size x zero p i l s hp hn e =
    let here : i ≡ p = ground arith in rw (here, get_or-set_self bytes p x 0 (omega arith)) refl
window-set bytes size x (suc n) p i l s hp hn e =
    ap₂ ◌∷◌ (get_or-set_ne bytes i p x 0 (ground arith)) (
      window-set bytes size x n (advance size p) i l s (ground (arith, advance_cases size p))
        (omega arith) (ground (arith, advance_cases size p)))

pub used-put_byte :
    (b : Buffer) (c : ℕ) → IsValid b → used b + 1 < b.size → used (put_byte b c) ≡ used b + 1
unfolding put_byte
used-put_byte b c v h = ground (arith, advance_cases b.size b.pw)

pub put_byte-contents :
    (b : Buffer) (c : ℕ)
    → IsValid b
    → used b + 1 < b.size
    → contents (put_byte b c) ≡ contents b ++ c ∷ []
unfolding put_byte
put_byte-contents b c v h =
    rw (used-put_byte b c v h, add-one)
      (window-set b.bytes b.size c (used b) b.pr b.pw v.storage v.small v.reader_in (omega arith)
        (ground arith))

pub put_byte-IsValid : (b : Buffer) (c : ℕ) → IsValid b → IsValid (put_byte b c)
unfolding put_byte
put_byte-IsValid b c v = ground (arith, advance_cases b.size b.pw, length-set b.bytes b.pw c)

pub skip-IsValid : (b : Buffer) → IsValid b → IsValid (skip b)
unfolding skip
skip-IsValid b v = ground (arith, advance_cases b.size b.pr)

pub used-skip : (b : Buffer) → IsValid b → used b ≢ 0 → used b ≡ suc (used (skip b))
unfolding skip
used-skip b v h = ground (arith, advance_cases b.size b.pr)

-- The oldest unread byte is the one at the read position; stepping over it leaves the others.
pub skip-contents : (b : Buffer) → IsValid b → used b ≢ 0 → contents b ≡ peek b ∷ contents (skip b)
skip-contents b v h = rw (used-skip b v h) (unfold skip in refl)
