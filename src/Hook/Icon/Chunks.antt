-- ===== src/Hook/Icon/Chunks.antt =====
-- The client gets the icon that was sent.
use Prim.Native.Nat.add
use seamlessrdp.Base.{
  ℕ, zero, suc, ◌+◌, ◌-◌, ◌*◌, ◌/◌, ◌%◌, ◌≤◌, ◌<◌, ◌≡◌, refl, ap, Bool, true, false, List, [], ◌∷◌,
  ◌++◌, Option, none, some, Bytes, All, ltb, ◌==◌, ==_iff, length, take, drop, arith,
}
use seamlessrdp.Base.Range.{passes, passes-below}
use seamlessrdp.Shared.Icon.{pixels}
use seamlessrdp.Hook.{Msg, set_icon}
use seamlessrdp.Vchannel.Format.{hex_digit}
use seamlessrdp.Hook.Icon.{icon_chunk, hex_text, icon_chunks, icon_side, update_icon}

abbrev pub IsBytes : Bytes → Type 0
IsBytes s = All (λ b. b < 256) s

-- the byte that two digits stand for
abbrev digit : ℕ → ℕ
digit c = elim (ltb c b'a') [ true ↦ c - b'0' | false ↦ c - b'a' + 10 ]

-- Reading hexadecimal text, two digits at a time.
pub unhex : Bytes → Bytes
unhex (a ∷ b ∷ s) = (16 * digit a + digit b) ∷ unhex s
unhex _ = []

-- The icon in messages numbered from `i` on, if that is what they are.
pub collect : ℕ → List Msg → Option Bytes
collect i [] = some []
collect i (set_icon h j side text ∷ out) = elim (j == i) [
  | true ↦ elim (collect (i + 1) out) [ none ↦ none | some s ↦ some (unhex text ++ s) ]
  | false ↦ none
]
collect i (_ ∷ out) = none

digits : (b : ℕ) → b < 256 → 16 * digit (hex_digit (b / 16)) + digit (hex_digit (b % 16)) ≡ b
unfolding passes hex_digit
digits b h = (==_iff _ _).0 (
    passes-below (λ b. 16 * digit (hex_digit (b / 16)) + digit (hex_digit (b % 16)) == b) 256 refl b
      h)

unhex-hex_text : (s : Bytes) → IsBytes s → unhex (hex_text s) ≡ s
unfolding hex_text unhex
unhex-hex_text [] h = refl
unhex-hex_text (b ∷ s) (h, hs) = rw (digits b h, unhex-hex_text s hs) refl

IsBytes-take : (n : ℕ) (s : Bytes) → IsBytes s → IsBytes (take n s)
IsBytes-take zero s h = tt
IsBytes-take (suc n) [] h = tt
IsBytes-take (suc n) (b ∷ s) (h, hs) = (h, IsBytes-take n s hs)

IsBytes-drop : (n : ℕ) (s : Bytes) → IsBytes s → IsBytes (drop n s)
IsBytes-drop zero s h = h
IsBytes-drop (suc n) [] h = tt
IsBytes-drop (suc n) (b ∷ s) (h, hs) = IsBytes-drop n s hs

take-drop : (n : ℕ) (s : Bytes) → take n s ++ drop n s ≡ s
take-drop zero s = refl
take-drop (suc n) [] = refl
take-drop (suc n) (b ∷ s) = ap (◌∷◌ b) (take-drop n s)

drop_all : (n : ℕ) (s : Bytes) → length s ≤ n → drop n s ≡ []
drop_all zero [] h = refl
drop_all zero (b ∷ s) h = absurd (omega arith)
drop_all (suc n) [] h = refl
drop_all (suc n) (b ∷ s) h = drop_all n s (omega arith)

drop-drop : (m n : ℕ) (s : Bytes) → drop m (drop n s) ≡ drop (n + m) s
drop-drop m zero s = rw (add.zero m) refl
drop-drop m (suc n) [] =
    rw (drop_all m [] (omega arith), drop_all (suc n + m) [] (omega arith)) refl
drop-drop m (suc n) (b ∷ s) = rw (add.suc n m) (drop-drop m n s)

chunk_end : (i : ℕ) → (i + 1) * icon_chunk ≡ i * icon_chunk + icon_chunk
chunk_end i = omega arith

next_chunk :
    (i : ℕ) (s : Bytes)
    → take icon_chunk (drop (i * icon_chunk) s) ++ drop ((i + 1) * icon_chunk) s
      ≡ drop (i * icon_chunk) s
next_chunk i s =
    rw (chunk_end i, ← drop-drop icon_chunk (i * icon_chunk) s)
      (take-drop icon_chunk (drop (i * icon_chunk) s))

collect-icon_chunks :
    (left i hwnd side : ℕ) (s : Bytes)
    → IsBytes s
    → length s ≤ (i + left) * icon_chunk
    → collect i (icon_chunks left i hwnd side s) ≡ some (drop (i * icon_chunk) s)
unfolding collect icon_chunks
collect-icon_chunks zero i hwnd side s bytes enough =
    rw (drop_all (i * icon_chunk) s (omega arith)) refl
collect-icon_chunks (suc left) i hwnd side s bytes enough =
    rw
      (
        collect,
        (==_iff i i).1 refl,
        collect-icon_chunks left (i + 1) hwnd side s bytes (omega arith),
        unhex-hex_text (take icon_chunk (drop (i * icon_chunk) s))
            (IsBytes-take icon_chunk _ (IsBytes-drop (i * icon_chunk) s bytes)),
        next_chunk i s,
      )
      refl

-- An icon of the size that belongs to `large` arrives as it is: the messages are numbered from 0 on,
-- and their texts, put together, are its bytes.
pub update_icon-collect :
    (hwnd : ℕ) (large : Bool) (s : Bytes)
    → IsBytes s
    → length s ≡ icon_side large * icon_side large * 4
    → collect 0 (update_icon hwnd (pixels s) large) ≡ some s
unfolding update_icon
update_icon-collect hwnd true s bytes size =
    rw size (collect-icon_chunks 11 0 hwnd 32 s bytes (omega arith))
update_icon-collect hwnd false s bytes size =
    rw size (collect-icon_chunks 3 0 hwnd 16 s bytes (omega arith))
