-- ===== src/Vchannel/Text.antt =====
-- The text filters of ServerExe/vchannel.c: `vchannel_strfilter` and `unicode_to_utf8`.
pub mod Filter
pub mod Units
pub mod Utf8
mod Tests
use Prim.Native.Nat.{bit_or}
use seamlessrdp.Base.{
  ℕ, ◌-◌, ◌/◌, ◌%◌, ◌≤◌, ◌≢◌, ◌||◌, List, [], ◌∷◌, Bytes, All, ltb, ◌==◌, if◌then◌else◌,
}

-- REPLACEMENT_CHAR
abbrev pub replacement_char : ℕ
replacement_char = b'_'

-- the test of a byte; "," is all of INVALID_CHARS
unfoldable pub filter_byte : ℕ → ℕ
filter_byte c = if ltb c 0x20 || c == b',' then replacement_char else c

unfoldable pub strfilter : Bytes → Bytes
unfolding filter_byte
strfilter [] = []
strfilter (c ∷ cs) = filter_byte c ∷ strfilter cs

-- CONVERT_BUFFER_SIZE
abbrev pub convert_buffer_size : ℕ
convert_buffer_size = 1024

-- `0xC0 | (c >> 6)` and `0x80 | (c & 0x3F)`
unfoldable pub encode_two : ℕ → Bytes → Bytes
encode_two c rest = bit_or 0xC0 (c / 64) ∷ bit_or 0x80 (c % 64) ∷ rest

unfoldable pub encode_three : ℕ → Bytes → Bytes
encode_three c rest =
    bit_or 0xE0 (c / 4096) ∷ bit_or 0x80 (c / 64 % 64) ∷ bit_or 0x80 (c % 64) ∷ rest

-- The loop over the UTF-16 units, none of them 0; `size` is what the code takes for the room left. The
-- list holds the bytes written: nothing stops the code at the end of `convert_buffer`.
unfoldable pub utf8_loop : ℕ → List ℕ → Bytes
utf8_loop size [] = []
utf8_loop size (c ∷ cs) =
    let one = c ∷ utf8_loop (size - 1) cs in
    let two = encode_two c (utf8_loop (size - 2) cs) in
    let three = encode_three c (utf8_loop (size - 2) cs) in
    let dropped = utf8_loop size cs in
    if ltb c 0x80
    then (if ltb size 1 then [] else one)
    else if ltb c 0x800
    then (if ltb size 2 then [] else two)
    else if ltb c 0xD800 || ltb 0xDFFF c
    then (if ltb size 3 then [] else three)
    else dropped

unfoldable pub unicode_to_utf8 : List ℕ → Bytes
unfolding utf8_loop
unicode_to_utf8 = utf8_loop (convert_buffer_size - 1)

unfoldable pub strfilter_unicode : List ℕ → Bytes
unfolding strfilter unicode_to_utf8
strfilter_unicode s = strfilter (unicode_to_utf8 s)
