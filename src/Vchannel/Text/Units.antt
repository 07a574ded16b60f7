-- ===== src/Vchannel/Text/Units.antt =====
-- UTF-8, and what `unicode_to_utf8` does with one unit.
use Prim.Native.Nat.{bit_or}
use seamlessrdp.Base.{
  dec_lt, inl, inr, ℕ, ◌+◌, ◌-◌, ◌*◌, ◌/◌, ◌%◌, ◌≤◌, ◌<◌, ◌≡◌, refl, ◌||◌, ◌⊎◌, List, [], ◌∷◌,
  Bytes, arith, ltb, ◌==◌, ==_iff, if◌then◌else◌, length,
}
use seamlessrdp.Base.Range.{passes, passes-below}
use seamlessrdp.Vchannel.Text.{encode_two, encode_three, utf8_loop}

or_C0 : (x : ℕ) → x < 32 → bit_or 0xC0 x ≡ 0xC0 + x
unfolding passes
or_C0 x h = (==_iff _ _).0 (passes-below (λ y. bit_or 0xC0 y == 0xC0 + y) 32 refl x h)

or_E0 : (x : ℕ) → x < 16 → bit_or 0xE0 x ≡ 0xE0 + x
unfolding passes
or_E0 x h = (==_iff _ _).0 (passes-below (λ y. bit_or 0xE0 y == 0xE0 + y) 16 refl x h)

or_80 : (x : ℕ) → x < 64 → bit_or 0x80 x ≡ 0x80 + x
unfolding passes
or_80 x h = (==_iff _ _).0 (passes-below (λ y. bit_or 0x80 y == 0x80 + y) 64 refl x h)

-- the units but for the surrogates
pub basic : List ℕ → List ℕ
basic [] = []
basic (c ∷ cs) = if ltb c 0xD800 || ltb 0xDFFF c then c ∷ basic cs else basic cs

-- UTF-8, of code points below 0x10000: each has the shortest form that holds its bits.
pub data IsUtf8 : List ℕ → Bytes → Type 0 where
  nil : IsUtf8 [] []
  one_byte : {c : ℕ} {cs : List ℕ} {s : Bytes} → c < 0x80 → IsUtf8 cs s → IsUtf8 (c ∷ cs) (c ∷ s)
  two_bytes :
      (x y : ℕ) {c : ℕ} {cs : List ℕ} {s : Bytes}
      → c ≡ x * 64 + y
      → y < 64
      → 0x80 ≤ c
      → c < 0x800
      → IsUtf8 cs s
      → IsUtf8 (c ∷ cs) ((0xC0 + x) ∷ (0x80 + y) ∷ s)
  three_bytes :
      (x y z : ℕ) {c : ℕ} {cs : List ℕ} {s : Bytes}
      → c ≡ x * 4096 + y * 64 + z
      → y < 64
      → z < 64
      → 0x800 ≤ c
      → c < 0x10000
      → IsUtf8 cs s
      → IsUtf8 (c ∷ cs) ((0xE0 + x) ∷ (0x80 + y) ∷ (0x80 + z) ∷ s)

pub encode_two-IsUtf8 :
    (c : ℕ) (cs : List ℕ) (rest : Bytes)
    → 0x80 ≤ c
    → c < 0x800
    → IsUtf8 cs rest
    → IsUtf8 (c ∷ cs) (encode_two c rest)
unfolding encode_two
encode_two-IsUtf8 c cs rest lo hi h =
    rw (or_C0 (c / 64) (omega arith), or_80 (c % 64) (omega arith))
      (two_bytes (c / 64) (c % 64) (omega arith) (omega arith) lo hi h)

pub encode_three-IsUtf8 :
    (c : ℕ) (cs : List ℕ) (rest : Bytes)
    → 0x800 ≤ c
    → c < 0x10000
    → IsUtf8 cs rest
    → IsUtf8 (c ∷ cs) (encode_three c rest)
unfolding encode_three
encode_three-IsUtf8 c cs rest lo hi h =
    rw
      (
        or_E0 (c / 4096) (omega arith),
        or_80 (c / 64 % 64) (omega arith),
        or_80 (c % 64) (omega arith),
      )
      (three_bytes (c / 4096) (c / 64 % 64) (c % 64) (omega arith) (omega arith) (omega arith) lo hi
        h)

-- how the loop treats a unit
pub data Width (c : ℕ) : Type 0 where
  one : c < 0x80 → Width c
  two : 0x80 ≤ c → c < 0x800 → Width c
  three : 0x800 ≤ c → (c < 0xD800) ⊎ (0xDFFF < c) → Width c
  surrogate : 0xD800 ≤ c → c ≤ 0xDFFF → Width c

pub Width-cases : (c : ℕ) → Width c
Width-cases c = elim (dec_lt c 0x80) [
  | yes p ↦ one p
  | no p ↦ elim (dec_lt c 0x800) [
    | yes q ↦ two (omega arith) q
    | no q ↦ elim (dec_lt c 0xD800) [
      | yes r ↦ three (omega arith) (inl r)
      | no r ↦ elim (dec_lt 0xDFFF c) [
        | yes t ↦ three (omega arith) (inr t)
        | no t ↦ surrogate (omega arith) (omega arith)
      ]
    ]
  ]
]

pub length-encode_two : (c : ℕ) (rest : Bytes) → length (encode_two c rest) ≡ length rest + 2
unfolding encode_two
length-encode_two c rest = omega arith

pub length-encode_three : (c : ℕ) (rest : Bytes) → length (encode_three c rest) ≡ length rest + 3
unfolding encode_three
length-encode_three c rest = omega arith

pub nil_units : IsUtf8 (basic []) []
unfolding basic
nil_units = nil

pub basic-kept : (c : ℕ) (s : List ℕ) → (c < 0xD800) ⊎ (0xDFFF < c) → basic (c ∷ s) ≡ c ∷ basic s
unfolding basic
basic-kept c s h = ground arith

pub basic-dropped : (c : ℕ) (s : List ℕ) → 0xD800 ≤ c → c ≤ 0xDFFF → basic (c ∷ s) ≡ basic s
unfolding basic
basic-dropped c s lo hi = ground arith

pub loop-one :
    (c size : ℕ) (s : List ℕ)
    → c < 0x80
    → 3 ≤ size
    → utf8_loop size (c ∷ s) ≡ c ∷ utf8_loop (size - 1) s
unfolding utf8_loop
loop-one c size s h room = ground arith

pub loop-two :
    (c size : ℕ) (s : List ℕ)
    → 0x80 ≤ c
    → c < 0x800
    → 3 ≤ size
    → utf8_loop size (c ∷ s) ≡ encode_two c (utf8_loop (size - 2) s)
unfolding utf8_loop
loop-two c size s lo hi room = ground arith

pub loop-three :
    (c size : ℕ) (s : List ℕ)
    → 0x800 ≤ c
    → (c < 0xD800) ⊎ (0xDFFF < c)
    → 3 ≤ size
    → utf8_loop size (c ∷ s) ≡ encode_three c (utf8_loop (size - 2) s)
unfolding utf8_loop
loop-three c size s lo basic_unit room = ground arith

pub loop-dropped :
    (c size : ℕ) (s : List ℕ) → 0xD800 ≤ c → c ≤ 0xDFFF → utf8_loop size (c ∷ s) ≡ utf8_loop size s
unfolding utf8_loop
loop-dropped c size s lo hi = ground arith
