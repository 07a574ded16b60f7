-- ===== src/Vchannel/Text/Utf8.antt =====
-- `unicode_to_utf8` against the UTF-8 encoding, and the size of what it writes.
use seamlessrdp.Base.{
  inl, ℕ, zero, suc, ◌+◌, ◌-◌, ◌*◌, ◌≤◌, ◌<◌, ◌⊎◌, List, [], ◌∷◌, Bytes, All, arith, length,
}
use seamlessrdp.Vchannel.Text.{
  convert_buffer_size, encode_two, encode_three, utf8_loop, unicode_to_utf8,
}
use seamlessrdp.Vchannel.Text.Units.{
  IsUtf8, nil_units, one_byte, basic, encode_two-IsUtf8, encode_three-IsUtf8, Width, one, two,
  three, surrogate, Width-cases, length-encode_two, length-encode_three, basic-kept, basic-dropped,
  loop-one, loop-two, loop-three, loop-dropped,
}

-- What the loop is to do for the units `s` with `room` bytes.
record Encodes (s : List ℕ) (out : Bytes) : Type 0 where
  encoded : IsUtf8 (basic s) out
  size : length out ≤ 3 * length s

Encodes-cons :
    (c : ℕ) (size : ℕ) (s : List ℕ)
    → Width c
    → c < 0x10000
    → 3 * suc (length s) ≤ size
    → ((n : ℕ) → 3 * length s ≤ n → Encodes s (utf8_loop n s))
    → Encodes (c ∷ s) (utf8_loop size (c ∷ s))
Encodes-cons c size s (one p) w h ih =
    let r = ih (size - 1) (omega arith) in
    rw (loop-one c size s p (omega (arith, h))) (record {
      encoded = rw (basic-kept c s (inl (omega (arith, p)))) (one_byte p r.encoded);
      size = omega (arith, r.size);
    })
Encodes-cons c size s (two p q) w h ih =
    let r = ih (size - 2) (omega arith) in
    rw (loop-two c size s p q (omega (arith, h))) (record {
      encoded =
          rw (basic-kept c s (inl (omega (arith, q))))
            (encode_two-IsUtf8 c (basic s) _ p q r.encoded);
      size = omega (arith, r.size, length-encode_two c (utf8_loop (size - 2) s));
    })
Encodes-cons c size s (three p q) w h ih =
    let r = ih (size - 2) (omega arith) in
    rw (loop-three c size s p q (omega (arith, h))) (record {
      encoded = rw (basic-kept c s q) (encode_three-IsUtf8 c (basic s) _ p w r.encoded);
      size = omega (arith, r.size, length-encode_three c (utf8_loop (size - 2) s));
    })
Encodes-cons c size s (surrogate p q) w h ih =
    let r = ih size (omega arith) in
    rw (loop-dropped c size s p q)
      (record { encoded = rw (basic-dropped c s p q) r.encoded; size = omega (arith, r.size) })

utf8_loop-Encodes :
    (s : List ℕ) (size : ℕ)
    → All (λ c. c < 0x10000) s
    → 3 * length s ≤ size
    → Encodes s (utf8_loop size s)
unfolding utf8_loop
utf8_loop-Encodes [] size w h = record { encoded = nil_units; size = omega arith }
utf8_loop-Encodes (c ∷ s) size w h =
    Encodes-cons c size s (Width-cases c) w.0 h (λ n k. utf8_loop-Encodes s n w.1 k)

-- whatever the units and the room are
pub length-utf8_loop : (s : List ℕ) (size : ℕ) → length (utf8_loop size s) ≤ 3 * length s
unfolding utf8_loop encode_two encode_three
length-utf8_loop [] size = omega arith
length-utf8_loop (c ∷ s) size =
    ground
      (arith, length-utf8_loop s (size - 1), length-utf8_loop s (size - 2), length-utf8_loop s size)

-- For at most 341 UTF-16 units the output is the UTF-8 encoding of the units that are no surrogates,
-- each in its shortest form, whole, and with its NUL it fits `convert_buffer`. Both callers pass at most 149 units.
pub unicode_to_utf8-IsUtf8 :
    (s : List ℕ)
    → length s ≤ 341
    → All (λ c. c < 0x10000) s
    → IsUtf8 (basic s) (unicode_to_utf8 s) × (length (unicode_to_utf8 s) + 1 ≤ convert_buffer_size)
unfolding unicode_to_utf8
unicode_to_utf8-IsUtf8 s h w =
    let r = utf8_loop-Encodes s (convert_buffer_size - 1) w (omega arith) in
    (r.encoded, omega (arith, r.size))

-- A unit that takes three bytes.
abbrev pub IsWide : ℕ → Type 0
IsWide c = (0x800 ≤ c) × ((c < 0xD800) ⊎ (0xDFFF < c))

utf8_loop-IsWide :
    (k size : ℕ) (s : List ℕ)
    → All IsWide s
    → k ≤ length s
    → 2 * k < size
    → 3 * k ≤ length (utf8_loop size s)
unfolding utf8_loop encode_three
utf8_loop-IsWide zero size s w h room = omega arith
utf8_loop-IsWide (suc k) size [] w h room = absurd (omega arith)
utf8_loop-IsWide (suc k) size (c ∷ s) w h room =
    ground (arith, utf8_loop-IsWide k (size - 2) s w.1, w.0)

-- From 342 units of three bytes each on, the bytes and their NUL do not fit `convert_buffer`: the loop
-- takes two from `size` where it writes three bytes.
unicode_to_utf8-overrun :
    (s : List ℕ)
    → All IsWide s
    → 342 ≤ length s
    → convert_buffer_size < length (unicode_to_utf8 s) + 1
unfolding unicode_to_utf8
unicode_to_utf8-overrun s w h =
    omega (arith, utf8_loop-IsWide 342 (convert_buffer_size - 1) s w h (omega arith))
