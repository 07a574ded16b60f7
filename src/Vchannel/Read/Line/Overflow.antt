-- ===== src/Vchannel/Read/Line/Overflow.antt =====
-- `vchannel_read` in overflow mode, behind a line that did not fit the array.
use seamlessrdp.Base.{
  ℕ, ◌+◌, ◌-◌, ◌≤◌, ◌≡◌, refl, true, false, [], ◌∷◌, ◌++◌, append_assoc, none, some, Bytes, IsText,
  arith, length, drop, length-append,
}
use seamlessrdp.Vchannel.Buffer.{max_line}
use seamlessrdp.Vchannel.Read.Array.{IsLine, find_newline-broken, before-unbroken}
use seamlessrdp.Vchannel.Read.{
  Reader, again, find_newline, before, overwrite, move_down, leave_overflow, take_line, read,
}
use seamlessrdp.Vchannel.Read.Line.{
  Shows, Reads, take_line-Reads, filled-Shows, length-moved, move_down-shifted,
}

-- In overflow mode a delivery with no newline is dropped, and the mode stays.
read-overflow_stays :
    (len : ℕ) (r : Reader) (chunk : Bytes)
    → r.overflow_mode ≡ true
    → Shows r []
    → IsLine chunk
    → length chunk ≤ max_line
    → ((read len (some chunk) r).0 ≡ again)
      × ((read len (some chunk) r).1.overflow_mode ≡ true)
      × Shows (read len (some chunk) r).1 []
unfolding read leave_overflow
read-overflow_stays len r chunk over sh h fits =
    let shown = filled-Shows r [] chunk sh (omega arith) in
    let missing : before (length chunk) (find_newline (overwrite r.buffer r.size chunk)) ≡ none =
      rw shown.layout (before-unbroken chunk shown.tail h) in
    let filled = overwrite r.buffer r.size chunk in
    let result : read len (some chunk) r ≡ (again, record r { buffer = filled }) =
      ground (arith, missing) in
    rw result
      (refl, over, record { tail = filled; layout = refl; count = sh.count; whole = shown.whole })

-- In overflow mode, with nothing in the reader's array: a delivery of at most `max_line` bytes that has
-- a newline and holds no NUL is dropped up to its first newline. What follows is answered as by a call
-- outside that mode, for a caller's array of at least `max_line` bytes.
pub read-overflow_ends :
    (len : ℕ) (r : Reader) (l rest : Bytes)
    → max_line ≤ len
    → r.overflow_mode ≡ true
    → Shows r []
    → IsLine l
    → IsText rest
    → length (l ++ b'\n' ∷ rest) ≤ max_line
    → let chunk = l ++ b'\n' ∷ rest in
      Reads rest (read len (some chunk) r).0 (read len (some chunk) r).1
unfolding read leave_overflow
read-overflow_ends len r l rest enough over sh h t fits =
    let chunk = l ++ b'\n' ∷ rest in
    let filled = overwrite r.buffer r.size chunk in
    let shown = filled-Shows r [] chunk sh (omega arith) in
    let layout : filled ≡ l ++ b'\n' ∷ (rest ++ shown.tail) = rw shown.layout (simp append_assoc) in
    let sizes = length-append l (b'\n' ∷ rest) in
    let search : find_newline filled ≡ some (length l) =
      rw layout (find_newline-broken l (rest ++ shown.tail) h) in
    let found : before (length chunk) (find_newline filled) ≡ some (length l) =
      rw search (ground (arith, sizes)) in
    let left : length chunk - length l - 1 ≡ length rest = omega (arith, sizes) in
    let moved : move_down filled (length l + 1) (length rest) ≡ rest ++ drop (length rest) filled =
      rw layout (move_down-shifted l b'\n' rest shown.tail) in
    let next : Reader = record {
      overflow_mode = false;
      buffer = rest ++ drop (length rest) filled;
      size = length rest;
    } in
    let result : read len (some chunk) r ≡ take_line len next =
      rw (read, over, leave_overflow, found, left, moved) refl in
    rw result (
      take_line-Reads len next rest enough refl t (record {
        tail = drop (length rest) filled;
        layout = refl;
        count = refl;
        whole = length-moved max_line rest filled shown.whole (omega (arith, sizes));
      }))
