-- ===== src/Vchannel/Read.antt =====
-- `vchannel_read` of ServerExe/vchannel.c: lines out of the chunks that the virtual channel delivers.
pub mod Array
pub mod Line
mod Tests
use seamlessrdp.Base.{
  ℕ, zero, suc, ◌+◌, ◌-◌, Bool, true, false, not, ◌&&◌, ◌||◌, List, [], ◌∷◌, ◌++◌, Option, none,
  some, Bytes, ltb, leb, ◌==◌, if◌then◌else◌, length, take, drop, set,
}
use seamlessrdp.Vchannel.Buffer.{max_line}

-- The static variables of the function; `buffer` is an array of `max_line` bytes.
pub record Reader : Type 0 where
  pub overflow_mode : Bool
  pub buffer : Bytes
  pub size : ℕ

-- 0 with the line, or -1 with EIO, -EAGAIN or ENOMEM in `errno`
pub data Answer : Type 0 where
  line : Bytes → Answer
  io_error : Answer
  again : Answer
  no_memory : Answer

-- `strchr(s, '\n') - s`, where there is one before the NUL. A search that runs off the array counts as
-- a failure: all that the code does with a place behind `size` is to treat it as one.
unfoldable pub find_newline : Bytes → Option ℕ
find_newline [] = none
find_newline (c ∷ cs) =
    if c == b'\n'
    then some 0
    else if c == 0
    then none
    else elim (find_newline cs) [ none ↦ none | some i ↦ some (suc i) ]

-- the read of `chunk` to `buffer + at`
abbrev pub overwrite : Bytes → ℕ → Bytes → Bytes
overwrite buffer at chunk = take at buffer ++ (chunk ++ drop (at + length chunk) buffer)

-- `memmove(buffer, buffer + from, n)`
abbrev pub move_down : Bytes → ℕ → ℕ → Bytes
move_down buffer from n = take n (drop from buffer) ++ drop n buffer

-- `newline && (newline - buffer) < bound`
abbrev pub before : ℕ → Option ℕ → Option ℕ
before bound none = none
before bound (some i) = if ltb i bound then some i else none

-- the first `if` in overflow mode: `bytes_read` bytes stand at the start of the buffer
unfoldable pub leave_overflow : Reader → ℕ → Reader
leave_overflow r bytes_read = elim (before bytes_read (find_newline r.buffer)) [
  | none ↦ r
  | some i ↦
      let size = bytes_read - i - 1 in
      record { overflow_mode = false; buffer = move_down r.buffer (i + 1) size; size = size }
]

-- from the second `strchr` on; `len` is the caller's `length`
unfoldable pub take_line : ℕ → Reader → Answer × Reader
unfolding find_newline
take_line len r = elim (before r.size (find_newline r.buffer)) [
  | none ↦ (again, if r.size == max_line then record r { overflow_mode = true; size = 0 } else r)
  | some i ↦
      let ended = set r.buffer i 0 in
      let size = r.size - (i + 1) in
      if leb len i
      then (no_memory, r)
      else (line (take i ended), record r { buffer = move_down ended (i + 1) size; size = size })
]

-- `none` is a read that fails, and `some chunk` one that delivers at most the bytes asked for.
unfoldable pub read : ℕ → Option Bytes → Reader → Answer × Reader
unfolding leave_overflow
read len none r = (io_error, r)
read len (some chunk) r =
    let filled = record r { buffer = overwrite r.buffer r.size chunk } in
    let next =
      if r.overflow_mode
      then leave_overflow filled (length chunk)
      else record filled { size = r.size + length chunk } in
    if next.overflow_mode then (again, next) else take_line len next

unfoldable pub initial : Bytes → Reader
initial buffer = record { overflow_mode = false; buffer = buffer; size = 0 }
