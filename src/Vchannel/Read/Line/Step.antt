-- ===== src/Vchannel/Read/Line/Step.antt =====
-- A call of `vchannel_read` that finds a line, and one that finds nothing.
use seamlessrdp.Base.{
  ℕ, ◌+◌, ◌≤◌, ◌≡◌, ◌⊎◌, inl, inr, refl, ap, true, false, [], ◌∷◌, ◌++◌, some, Bytes, arith, length,
  length-append,
}
use seamlessrdp.Vchannel.Buffer.{max_line}
use seamlessrdp.Vchannel.Read.Array.{IsLine}
use seamlessrdp.Vchannel.Read.{Reader, Answer, line, again, overwrite, read}
use seamlessrdp.Vchannel.Read.Line.{
  Shows, Reads, got, waiting, dropped, filled-Shows, left-Shows, take_line-line,
}

-- the answer and the state where the bytes start with a line
pub read-line :
    (len : ℕ) (r : Reader) (s chunk l rest : Bytes)
    → max_line ≤ len
    → r.overflow_mode ≡ false
    → Shows r s
    → length s + length chunk ≤ max_line
    → IsLine l
    → s ++ chunk ≡ l ++ b'\n' ∷ rest
    → ((read len (some chunk) r).0 ≡ line l)
      × (((read len (some chunk) r).1.overflow_mode ≡ false)
          × Shows (read len (some chunk) r).1 rest)
unfolding read
read-line len r s chunk l rest enough normal sh fits h e =
    let next = record r {
      overflow_mode = false;
      buffer = overwrite r.buffer r.size chunk;
      size = r.size + length chunk;
    } in
    let shown = filled-Shows r s chunk sh fits in
    let filled : Shows next (s ++ chunk) = record {
      tail = shown.tail;
      layout = shown.layout;
      count = shown.count;
      whole = shown.whole;
    } in
    let there : Shows next (l ++ b'\n' ∷ rest) = rw e at filled in
    rw (read, normal, take_line-line len next l rest enough h there)
      (refl, (refl, left-Shows next l rest there))

-- with nothing read, the call says that there is nothing
pub Reads-nil :
    (a : Answer) (r : Reader) → Reads [] a r → (a ≡ again) × ((r.overflow_mode ≡ true) ⊎ Shows r [])
Reads-nil a r (got l rest h e normal sh) =
    absurd (omega (arith, ap length e, length-append l (b'\n' ∷ rest)))
Reads-nil a r (waiting h room normal sh) = (refl, inr sh)
Reads-nil a r (dropped h full on sh) = (refl, inl on)
