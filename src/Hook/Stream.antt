-- ===== src/Hook/Stream.antt =====
-- The text that the client receives from the hooks of ServerExe/hookdll.c and from the shell, through the
-- shared buffer and the channel of ServerExe/vchannel.c.
mod Tests
use seamlessrdp.Base.{
  ℕ, suc, ◌+◌, ◌≤◌, ◌<◌, ◌≡◌, refl, ap, sym, ◌∙◌, Bool, true, inl, inr, List, [], ◌∷◌, ◌++◌,
  append_assoc, Bytes, All, map, arith, length, ltb, ◌==◌, if◌then◌else◌, Bool-cases,
}
use seamlessrdp.Vchannel.Buffer.{IsValid, has_room, max_line}
use seamlessrdp.Vchannel.Message.{Message, message_size, Holds}
use seamlessrdp.Vchannel.Serial.{Semaphore, Counts, render, newline}
use seamlessrdp.Vchannel.Serial.Count.{issued}
use seamlessrdp.Vchannel.Process.{Shell}
use seamlessrdp.Vchannel.System.{Event, post, serve, step, run}
use seamlessrdp.Vchannel.System.Lines.{lines}
use seamlessrdp.Vchannel.System.Order.{Fits, Running, run-in_order}
use seamlessrdp.Hook.{Msg}
use seamlessrdp.Hook.Print.{print}
use seamlessrdp.Hook.Print.Args.{IsPrinted, IsWritable}
use seamlessrdp.Hook.Print.Short.{IsLine, IsWellFormed, print-IsWellFormed}

put_first : ℕ → List Bytes × Bytes → List Bytes × Bytes
put_first c ([], rest) = ([], c ∷ rest)
put_first c (l ∷ ls, rest) = ((c ∷ l) ∷ ls, rest)

-- The lines of a text, and what stands behind the last newline.
pub lines_of : Bytes → List Bytes × Bytes
lines_of [] = ([], [])
lines_of (c ∷ s) =
    let (ls, rest) = lines_of s in if c == b'\n' then ([] ∷ ls, rest) else put_first c (ls, rest)

abbrev pub concat : List Bytes → Bytes
concat [] = []
concat (s ∷ ss) = s ++ concat ss

-- The messages with the serial numbers that they take from a semaphore with the count `k`.
abbrev pub rendered : ℕ → List Message → List Bytes
rendered k [] = []
rendered k (m ∷ q) = render m (issued k) ∷ rendered (issued k + 1) q

lines_of-line :
    (l s : Bytes)
    → All IsPrinted l
    → lines_of (l ++ b'\n' ∷ s) ≡ (l ∷ (lines_of s).0, (lines_of s).1)
unfolding lines_of put_first
lines_of-line [] s h = refl
lines_of-line (c ∷ l) s h = ground (arith, lines_of-line l s h.1, h.0)

lines_of-lines :
    (k : ℕ) (ms : List Msg)
    → All IsWellFormed ms
    → lines_of (concat (lines k (map print ms))) ≡ (rendered k (map print ms), [])
unfolding lines_of
lines_of-lines k [] w = refl
lines_of-lines k (m ∷ ms) w =
    let line = render (print m) (issued k) in
    let rest = concat (lines (issued k + 1) (map print ms)) in
    rw (lines_of-line line rest (w.0.line (issued k)).printed, lines_of-lines (issued k + 1) ms w.1)
      refl

-- A message of a hook or of the shell is posted, or the shell serves the buffer.
pub data IsHooked : Event → Type 0 where
  posted : (m : Msg) → IsWritable m → IsHooked (post (print m))
  served : IsHooked serve

IsHooked-Fits : (size : ℕ) (e : Event) → 870 ≤ size → IsHooked e → Fits size e
IsHooked-Fits size _ h (posted m w) =
    let f = print-IsWellFormed m w in
    (f.short, omega (arith, f.size, h), λ serial. (f.line serial).fits)
IsHooked-Fits size _ h served = tt

All-Fits : (size : ℕ) (es : List Event) → 870 ≤ size → All IsHooked es → All (Fits size) es
All-Fits size [] h k = tt
All-Fits size (e ∷ es) h k = (IsHooked-Fits size e h k.0, All-Fits size es h k.1)

-- The messages are those of some calls.
record Prints (q : List Message) : Type 0 where
  calls : List Msg
  same : q ≡ map print calls
  well_formed : All IsWellFormed calls

module _ (sem : Semaphore) (accepts : List Bytes → Bytes → Bool) where
  step-Prints :
      (sh : Shell sem) (e : Event) (q : List Message)
      → IsHooked e
      → Prints q
      → Prints ((step sem accepts sh e).1 ++ q)
  unfolding step
  step-Prints sh _ q served p = p
  step-Prints sh _ q (posted m w) p =
      elim (Bool-cases (has_room sh.buffer (message_size (print m)))) [
        | inl room ↦ rw room (record {
          calls = m ∷ p.calls;
          same = ap (◌∷◌ (print m)) p.same;
          well_formed = (print-IsWellFormed m w, p.well_formed);
        })
        | inr full ↦ rw full p
      ]

  run-Prints :
      (sh : Shell sem) (es : List Event) → All IsHooked es → Prints (run sem accepts sh es).1
  unfolding run
  run-Prints sh [] h = record { calls = []; same = refl; well_formed = tt }
  run-Prints sh (e ∷ es) h =
      let (sh1, ms) = step sem accepts sh e in
      step-Prints sh e (run sem accepts sh1 es).1 h.0 (run-Prints sh1 es h.1)

-- the calls whose messages were forwarded
Prints-first :
    (p q : List Message) (calls : List Msg)
    → All IsWellFormed calls
    → p ++ q ≡ map print calls
    → Prints p
Prints-first [] q calls w e = record { calls = []; same = refl; well_formed = tt }
Prints-first (m ∷ p) q [] w e = cc
Prints-first (m ∷ p) q (c ∷ calls) w e =
    let rest = Prints-first p q calls w.1 (cc e) in
    record {
      calls = c ∷ rest.calls;
      same = cc (e, rest.same);
      well_formed = (w.0, rest.well_formed);
    }

-- What the client has read.
pub record Streams (k : ℕ) (stored : List Message) (sent : List Bytes) : Type 0 where
  pub told : List Msg
  pub waiting : List Message
  pub split : stored ≡ map print told ++ waiting
  pub well_formed : All IsWellFormed told
  pub received : lines_of (concat sent) ≡ (rendered k (map print told), [])

module _ (sem : Semaphore) (law : Counts sem) (accepts : List Bytes → Bytes → Bool) where
  -- Let a session start with nothing sent and an empty buffer of at least 870 bytes, let the semaphore
  -- count and the channel accept everything. After any sequence of messages that the hooks and the
  -- shell post and of services, the text that was sent consists of whole lines; they are those of some
  -- of the stored messages, one for each, numbered on from the semaphore's count, in the order in which
  -- they were stored, and the other messages wait; and each line is well formed.
  pub run-Streams :
      (sh : Shell sem) (es : List Event)
      → ((log : List Bytes) (bytes : Bytes) → accepts log bytes ≡ true)
      → sh.channel ≡ true
      → sh.mapped ≡ true
      → IsValid sh.buffer
      → 870 ≤ sh.buffer.size
      → Holds sh.buffer []
      → sh.sent ≡ []
      → All IsHooked es
      → Streams (law.count sh.serial) (run sem accepts sh es).1 (run sem accepts sh es).0.sent
  run-Streams sh es all channel mapped v size h fresh hooked =
      let r =
        run-in_order sem law accepts [] sh es all channel mapped v tt tt h
          (All-Fits sh.buffer.size es size hooked) in
      let p = run-Prints sem accepts sh es hooked in
      let told = Prints-first r.done r.waiting p.calls p.well_formed (sym r.split ∙ p.same) in
      let k = law.count sh.serial in
      let sent : (run sem accepts sh es).0.sent ≡ lines k (map print told.calls) =
        r.sent ∙ ap (λ s. s ++ lines k r.done) fresh ∙ ap (lines k) told.same in
      record {
        told = told.calls;
        waiting = r.waiting;
        split = r.split ∙ ap (λ q. q ++ r.waiting) told.same;
        well_formed = told.well_formed;
        received =
            ap (λ s. lines_of (concat s)) sent ∙ lines_of-lines k told.calls told.well_formed;
      }
