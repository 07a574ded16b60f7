-- ===== src/Shell/Input/Lines.antt =====
-- Every line that has come is handled, in the order of the lines.
use seamlessrdp.Base.{
  ℕ, ◌+◌, ◌≤◌, ◌≡◌, refl, ap, false, List, [], ◌∷◌, ◌++◌, Option, some, Bytes, All, map, replicate,
  arith, length, length-append, append-nil,
}
use seamlessrdp.Vchannel.Buffer.{max_line}
use seamlessrdp.Vchannel.Read.Array.{IsLine}
use seamlessrdp.Vchannel.Read.{Reader, line, again, read}
use seamlessrdp.Vchannel.Read.Line.{Shows, read-Reads}
use seamlessrdp.Vchannel.Read.Line.Step.{read-line, Reads-nil}
use seamlessrdp.Shell.Command.{Call, done, handle_line}
use seamlessrdp.Shell.Input.{returned, handled_first, process_cmds}

-- lines as the client sends them
abbrev pub join : List Bytes → Bytes
join [] = []
join (l ∷ ls) = l ++ b'\n' ∷ join ls

-- The shell survives the line.
abbrev pub IsSurvived : Bytes → Type 0
IsSurvived l = (call : Option Call) × (p : Option Bytes) × (handle_line l ≡ done call p)

-- The channel has the bytes that come first, and then nothing more for a while.
abbrev pub arriving : Bytes → ℕ → List (Option Bytes)
arriving chunk n = some chunk ∷ replicate n (some [])

none-left :
    (r : Reader) (s chunk : Bytes)
    → r.overflow_mode ≡ false
    → Shows r s
    → s ++ chunk ≡ []
    → length s + length chunk ≤ max_line
    → (read max_line (some chunk) r).0 ≡ again
none-left r s chunk normal sh e fits =
    let r' = (read max_line (some chunk) r).1 in
    let answered = read-Reads max_line r s chunk (omega arith) normal sh (rw e tt) fits in
    (Reads-nil (read max_line (some chunk) r).0 r' (rw e at answered)).0

process_cmds-line :
    (r : Reader) (chunk l : Bytes) (chunks : List (Option Bytes)) (call : Option Call)
    (p : Option Bytes)
    → (read max_line (some chunk) r).0 ≡ line l
    → handle_line l ≡ done call p
    → process_cmds (some chunk ∷ chunks) r
      ≡ handled_first (done call p) (process_cmds chunks (read max_line (some chunk) r).1)
unfolding process_cmds
process_cmds-line r chunk l chunks call p answer handled = rw (process_cmds, answer, handled) refl

process_cmds-end :
    (r : Reader) (chunk : Bytes) (chunks : List (Option Bytes))
    → (read max_line (some chunk) r).0 ≡ again
    → process_cmds (some chunk ∷ chunks) r
      ≡ record { handled = []; reader = (read max_line (some chunk) r).1; ending = returned }
unfolding process_cmds
process_cmds-end r chunk chunks answer = rw (process_cmds, answer) refl

-- With `s` read and not handled before, outside overflow mode, let the bytes that come make whole lines
-- of it, which hold no NUL, fit the array together and are none that crashes the shell; and let the
-- channel give these bytes to the first read and nothing to the next ones. Then one run of the loop
-- handles all the lines in their order and returns.
pub process_cmds-lines :
    (ls : List Bytes) (r : Reader) (s chunk : Bytes)
    → r.overflow_mode ≡ false
    → Shows r s
    → s ++ chunk ≡ join ls
    → length (join ls) ≤ max_line
    → All IsLine ls
    → All IsSurvived ls
    → ((process_cmds (arriving chunk (length ls)) r).handled ≡ map handle_line ls)
      × ((process_cmds (arriving chunk (length ls)) r).ending ≡ returned)
process_cmds-lines [] r s chunk normal sh e fits lines survived =
    let size : length s + length chunk ≡ length (join []) =
      omega (arith, length-append s chunk, ap length e) in
    rw (process_cmds-end r chunk [] (none-left r s chunk normal sh e (omega (arith, size, fits))))
      (refl, refl)
process_cmds-lines (l ∷ ls) r s chunk normal sh e fits (h, hs) ((call, p, handled), more) =
    let size : length s + length chunk ≡ length (join (l ∷ ls)) =
      omega (arith, length-append s chunk, ap length e) in
    let step =
      read-line max_line r s chunk l (join ls) (omega arith) normal sh (omega (arith, size, fits)) h
        e in
    let shorter : length (join ls) ≤ max_line =
      omega (arith, fits, length-append l (b'\n' ∷ join ls)) in
    let rest =
      process_cmds-lines ls (read max_line (some chunk) r).1 (join ls) [] step.1.0 step.1.1
        (append-nil (join ls)) shorter hs more in
    rw
      (process_cmds-line r chunk l (arriving [] (length ls)) call p step.0 handled, handled, rest.0)
      (refl, rest.1)
