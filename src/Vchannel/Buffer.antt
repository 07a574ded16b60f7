-- ===== src/Vchannel/Buffer.antt =====
-- The ring buffer of ServerExe/vchannel.c that all processes share: the free-space test and the
-- copying of strings in and out. Each function is a part of `vchannel_write` or `vchannel_process`.
pub mod Window
pub mod Space
pub mod Strings
use seamlessrdp.Base.{
  ℕ, zero, suc, ◌*◌, ◌%◌, ◌^◌, ◌<◌, ◌≡◌, Bool, true, false, ◌&&◌, List, [], ◌∷◌, Option, none, some,
  Bytes, add_u32, ltb, leb, ◌==◌, if◌then◌else◌, length, get_or, set, replicate,
}

-- `buffer_t`; `bytes` is its `data`
pub record Buffer : Type 0 where
  pub pw : ℕ
  pub pr : ℕ
  pub size : ℕ
  pub bytes : Bytes

-- BUFFER_SIZE and VCHANNEL_MAX_LINE
abbrev pub buffer_size : ℕ
buffer_size = 96 * 1024

abbrev pub max_line : ℕ
max_line = 1024

-- What every operation on the buffer keeps: the two positions are inside it.
pub record IsValid (b : Buffer) : Type 0 where
  pub storage : length b.bytes ≡ b.size
  pub small : b.size < 2 ^ 31
  pub writer_in : b.pw < b.size
  pub reader_in : b.pr < b.size

-- `(p + 1) % g_buffer->size`
unfoldable pub advance : ℕ → ℕ → ℕ
advance size p = add_u32 p 1 % size

-- the tests of the loop in `vchannel_write`: is there room for `n` bytes?
unfoldable pub has_room : Buffer → ℕ → Bool
has_room b n =
    if ltb b.pw b.pr && leb b.pr (add_u32 b.pw n)
    then false
    else if leb b.size (add_u32 b.pw n) && leb b.pr (add_u32 b.pw n % b.size)
    then false
    else true

-- one round of the two `for` loops of `vchannel_write`
unfoldable pub put_byte : Buffer → ℕ → Buffer
put_byte b c = record b { bytes = set b.bytes b.pw c; pw = advance b.size b.pw }

-- such a loop: `strlen(s) + 1` rounds, the last one writes the NUL
unfoldable pub put_string : Buffer → Bytes → Buffer
unfolding put_byte advance
put_string b [] = put_byte b 0
put_string b (c ∷ cs) = put_string (put_byte b c) cs

-- `g_buffer->data[g_buffer->pr]`
abbrev pub peek : Buffer → ℕ
peek b = get_or b.bytes b.pr 0

-- `g_buffer->pr = (g_buffer->pr + 1) % g_buffer->size`
unfoldable pub skip : Buffer → Buffer
skip b = record b { pr = advance b.size b.pr }

-- The `while (1)` loops of `vchannel_process`, with the `skip` behind each. `room` is what is left of
-- the array that `pd` walks; `none` is a write past its end.
unfoldable pub get_string : ℕ → Buffer → Option (Bytes × Buffer)
unfolding skip advance
get_string zero b = none
get_string (suc room) b = elim (peek b == 0) [
  | true ↦ some ([], skip b)
  | false ↦ elim (get_string room (skip b)) [ none ↦ none | some (s, b') ↦ some (peek b ∷ s, b') ]
]

-- what `vchannel_open` leaves in the fresh mapping, which is zero-filled
unfoldable pub empty_buffer : Buffer
empty_buffer = record { pw = 0; pr = 0; size = buffer_size; bytes = replicate buffer_size 0 }
