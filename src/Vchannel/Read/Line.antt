-- ===== src/Vchannel/Read/Line.antt =====
-- What `vchannel_read` makes of the bytes that the channel delivers, one call after the other.
pub mod Step
pub mod Overflow
use seamlessrdp.Base.{
  dec_lt, ℕ, ◌+◌, ◌-◌, ◌≤◌, ◌<◌, ◌≡◌, refl, sym, ap, ◌∙◌, true, false, [], ◌∷◌, ◌++◌, append_assoc,
  none, some, Bytes, IsText, arith, leb, ◌==◌, length, drop, set, length-append, length-drop,
  take-append_length,
}
use seamlessrdp.Vchannel.Buffer.{max_line}
use seamlessrdp.Vchannel.Read.Array.{
  IsLine, unbroken, broken, Split-text, find_newline-broken, before-unbroken, move_down_lem,
  overwrite_lem, set-append_length,
}
use seamlessrdp.Vchannel.Read.{
  Reader, Answer, line, again, find_newline, before, overwrite, move_down, leave_overflow,
  take_line, read,
}

-- The bytes read and not returned yet stand at the start of the array, which has its full length.
pub record Shows (r : Reader) (s : Bytes) : Type 0 where
  pub tail : Bytes
  pub layout : r.buffer ≡ s ++ tail
  pub count : r.size ≡ length s
  pub whole : length r.buffer ≡ max_line

-- The answer to a call, and the state behind it, where `s` are the bytes read and not returned before.
pub data Reads (s : Bytes) : Answer → Reader → Type 0 where
  -- the bytes up to the first newline are returned without it, and what follows is kept
  got :
      (l rest : Bytes) {r : Reader}
      → IsLine l
      → s ≡ l ++ b'\n' ∷ rest
      → r.overflow_mode ≡ false
      → Shows r rest
      → Reads s (line l) r
  -- there is no newline, and room for more bytes
  waiting :
      {r : Reader}
      → IsLine s
      → length s < max_line
      → r.overflow_mode ≡ false
      → Shows r s
      → Reads s again r
  -- there is no newline in a full array: its bytes are dropped
  dropped :
      {r : Reader}
      → IsLine s
      → length s ≡ max_line
      → r.overflow_mode ≡ true
      → Shows r []
      → Reads s again r

-- the array behind a line and what follows it
length-moved :
    (n : ℕ) (rest all : Bytes)
    → length all ≡ n
    → length rest ≤ n
    → length (rest ++ drop (length rest) all) ≡ n
length-moved n rest all e h =
    omega (arith, length-append rest (drop (length rest) all), length-drop (length rest) all)

-- the array behind a line: what followed it has moved to the start
abbrev shifted : Bytes → ℕ → Bytes → Bytes → Bytes
shifted l c rest tail = rest ++ drop (length rest) (l ++ c ∷ (rest ++ tail))

move_down-shifted :
    (l : Bytes) (c : ℕ) (rest tail : Bytes)
    → move_down (l ++ c ∷ (rest ++ tail)) (length l + 1) (length rest) ≡ shifted l c rest tail
move_down-shifted l c rest tail =
    let grouped : (l ++ c ∷ []) ++ rest ++ tail ≡ l ++ c ∷ (rest ++ tail) = simp append_assoc in
    let longer : length (l ++ c ∷ []) ≡ length l + 1 = omega (arith, length-append l (c ∷ [])) in
    rw (grouped, longer) at (move_down_lem (l ++ c ∷ []) rest tail)

take_line-line :
    (len : ℕ) (r : Reader) (l rest : Bytes)
    → max_line ≤ len
    → IsLine l
    → (sh : Shows r (l ++ b'\n' ∷ rest))
    → take_line len r ≡ (line l, record r { buffer = shifted l 0 rest sh.tail; size = length rest })
unfolding take_line
take_line-line len r l rest enough h sh =
    let layout : r.buffer ≡ l ++ b'\n' ∷ (rest ++ sh.tail) = rw sh.layout (simp append_assoc) in
    let sizes = length-append l (b'\n' ∷ rest) in
    let search : find_newline r.buffer ≡ some (length l) =
      rw layout (find_newline-broken l (rest ++ sh.tail) h) in
    let found : before r.size (find_newline r.buffer) ≡ some (length l) =
      rw search (ground (arith, sh.count, sizes)) in
    let ended : set r.buffer (length l) 0 ≡ l ++ 0 ∷ (rest ++ sh.tail) =
      rw layout (set-append_length l b'\n' 0 (rest ++ sh.tail)) in
    let left : r.size - (length l + 1) ≡ length rest = omega (arith, sh.count, sizes) in
    let short : leb len (length l) ≡ false =
      ground (arith, sh.whole, ap length layout, length-append l (b'\n' ∷ (rest ++ sh.tail))) in
    rw (take_line, found, short, ended, left, take-append_length, move_down-shifted) refl

-- the state behind a line shows what followed it
left-Shows :
    (r : Reader) (l rest : Bytes)
    → (sh : Shows r (l ++ b'\n' ∷ rest))
    → Shows (record r { buffer = shifted l 0 rest sh.tail; size = length rest }) rest
left-Shows r l rest sh =
    let full : length (l ++ 0 ∷ (rest ++ sh.tail)) ≡ max_line = omega (
      arith,
      sh.whole,
      ap length sh.layout,
      length-append (l ++ b'\n' ∷ rest) sh.tail,
      length-append l (b'\n' ∷ rest),
      length-append l (0 ∷ (rest ++ sh.tail)),
      length-append rest sh.tail,
    ) in
    record {
      tail = drop (length rest) (l ++ 0 ∷ (rest ++ sh.tail));
      layout = refl;
      count = refl;
      whole =
          length-moved max_line rest (l ++ 0 ∷ (rest ++ sh.tail)) full
            (omega (arith, length-append l (0 ∷ (rest ++ sh.tail)), length-append rest sh.tail));
    }

take_line-got :
    (len : ℕ) (r : Reader) (l rest : Bytes)
    → max_line ≤ len
    → r.overflow_mode ≡ false
    → IsLine l
    → Shows r (l ++ b'\n' ∷ rest)
    → Reads (l ++ b'\n' ∷ rest) (take_line len r).0 (take_line len r).1
unfolding take_line
take_line-got len r l rest enough normal h sh =
    rw (take_line-line len r l rest enough h sh) (got l rest h refl normal (left-Shows r l rest sh))

take_line-Reads :
    (len : ℕ) (r : Reader) (s : Bytes)
    → max_line ≤ len
    → r.overflow_mode ≡ false
    → IsText s
    → Shows r s
    → Reads s (take_line len r).0 (take_line len r).1
unfolding take_line
take_line-Reads len r s enough normal t sh = elim (Split-text s t) [
  | broken l rest h e ↦ rw e (take_line-got len r l rest enough normal h (rw e at sh))
  | unbroken h ↦
      let missing : before r.size (find_newline r.buffer) ≡ none =
        rw (sh.layout, sh.count) (before-unbroken s sh.tail h) in
      elim (dec_lt (length s) max_line) [
        | yes room ↦
            let open_end : (r.size == max_line) ≡ false = ground (arith, sh.count) in
            rw (take_line, missing, open_end) (waiting h room normal sh)
        | no full ↦
            let sizes : length s ≡ max_line =
              omega (arith, sh.whole, ap length sh.layout, length-append s sh.tail) in
            let closed : (r.size == max_line) ≡ true = ground (arith, sh.count) in
            rw (take_line, missing, closed)
              (dropped h sizes refl
                (record { tail = r.buffer; layout = refl; count = refl; whole = sh.whole }))
      ]
]

-- The chunk stands behind the bytes that were there.
filled-Shows :
    (r : Reader) (s chunk : Bytes)
    → Shows r s
    → length s + length chunk ≤ max_line
    → Shows
        (record r { buffer = overwrite r.buffer r.size chunk; size = r.size + length chunk })
        (s ++ chunk)
filled-Shows r s chunk sh fits =
    let after = drop (length s + length chunk) (s ++ sh.tail) in
    let all : length (s ++ sh.tail) ≡ max_line = sym (ap length sh.layout) ∙ sh.whole in
    let same : overwrite r.buffer r.size chunk ≡ s ++ chunk ++ after =
      rw (sh.layout, sh.count, overwrite_lem, append_assoc) refl in
    record {
      tail = after;
      layout = same;
      count = omega (arith, sh.count, length-append s chunk);
      whole = omega (
        arith,
        ap length same,
        all,
        length-append (s ++ chunk) after,
        length-append s chunk,
        length-drop (length s + length chunk) (s ++ sh.tail),
      );
    }

-- Outside overflow mode, with `s` read and not returned before, a delivery of `chunk` that fits the
-- rest of the array is answered for the bytes `s ++ chunk`, none of them NUL: their first line, if
-- they have a newline, and -EAGAIN if not; ENOMEM never, for a caller's array of `max_line` bytes.
pub read-Reads :
    (len : ℕ) (r : Reader) (s chunk : Bytes)
    → max_line ≤ len
    → r.overflow_mode ≡ false
    → Shows r s
    → IsText (s ++ chunk)
    → length s + length chunk ≤ max_line
    → Reads (s ++ chunk) (read len (some chunk) r).0 (read len (some chunk) r).1
unfolding read
read-Reads len r s chunk enough normal sh t fits =
    let next = record r {
      overflow_mode = false;
      buffer = overwrite r.buffer r.size chunk;
      size = r.size + length chunk;
    } in
    let shown = filled-Shows r s chunk sh fits in
    rw (read, normal)
      (take_line-Reads len next (s ++ chunk) enough refl t (record {
        tail = shown.tail;
        layout = shown.layout;
        count = shown.count;
        whole = shown.whole;
      }))
