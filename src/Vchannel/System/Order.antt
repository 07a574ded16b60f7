-- ===== src/Vchannel/System/Order.antt =====
-- Of the messages that were stored in the shared buffer, which of them the client gets, and in which
-- order.
use seamlessrdp.Base.{
  ℕ, ◌≤◌, ◌<◌, ◌≡◌, refl, ap, ◌∙◌, Bool, true, inl, inr, List, [], ◌∷◌, ◌++◌, append-nil,
  append_assoc, Bytes, All, All-append, arith, length, length-append, Bool-cases,
}
use seamlessrdp.Vchannel.Buffer.{Buffer, IsValid, has_room}
use seamlessrdp.Vchannel.Buffer.Space.{has_room_iff}
use seamlessrdp.Vchannel.Buffer.Strings.{length-contents}
use seamlessrdp.Vchannel.Message.{Message, IsShort, message_size, encode, Holds, store}
use seamlessrdp.Vchannel.Message.Stored.{store-Queued}
use seamlessrdp.Vchannel.Serial.{Semaphore, Counts}
use seamlessrdp.Vchannel.Process.{Shell, process}
use seamlessrdp.Vchannel.Process.Refine.{process-Reports}
use seamlessrdp.Vchannel.System.{Event, post, serve, step, run}
use seamlessrdp.Vchannel.System.Lines.{
  IsBrief, lines, count_after, lines-append, count_after-append, deliver-Complete,
}

length-le-encode : (q : List Message) → length q ≤ length (encode q)
length-le-encode [] = omega arith
length-le-encode (m ∷ q) = omega (
  arith,
  length-append m.command (0 ∷ (m.args ++ 0 ∷ encode q)),
  length-append m.args (0 ∷ encode q),
  length-le-encode q,
)

length-lt-size : (b : Buffer) (q : List Message) → IsValid b → Holds b q → length q < b.size
length-lt-size b q v h = ground (arith, length-contents b, ap length h, length-le-encode q)

-- an event whose message fits the reader's arrays, the buffer and a line
abbrev pub Fits : ℕ → Event → Type 0
Fits size (post m) = IsShort m × (message_size m ≤ size) × IsBrief m
Fits size serve = Unit

module _ (sem : Semaphore) (law : Counts sem) (accepts : List Bytes → Bytes → Bool) where
  -- the parts of the shell's state that every step keeps
  pub record Running (size k : ℕ) (log : List Bytes) (stored : List Message) (sh : Shell sem)
      : Type 0 where
    pub channel : sh.channel ≡ true
    pub mapped : sh.mapped ≡ true
    pub valid : IsValid sh.buffer
    pub same_size : sh.buffer.size ≡ size
    -- What was stored so far is what was forwarded, and then what waits in the buffer.
    pub done : List Message
    pub waiting : List Message
    pub split : stored ≡ done ++ waiting
    pub short : All IsShort waiting
    pub brief : All IsBrief waiting
    pub holds : Holds sh.buffer waiting
    pub count : law.count sh.serial ≡ count_after k done
    pub sent : sh.sent ≡ log ++ lines k done

  store-Running :
      (size k : ℕ) (log : List Bytes) (past : List Message) (m : Message) (sh : Shell sem)
      → Running size k log past sh
      → IsShort m
      → message_size m ≤ size
      → IsBrief m
      → has_room sh.buffer (message_size m) ≡ true
      → Running size k log (past ++ m ∷ []) (record sh { buffer = store sh.buffer m })
  store-Running size k log past m sh r short fits brief room =
      let fits' : message_size m ≤ sh.buffer.size = omega (arith, r.same_size) in
      let free = (has_room_iff sh.buffer (message_size m) r.valid fits').0 room in
      let queued = store-Queued sh.buffer r.waiting m r.valid r.holds free in
      record {
        channel = r.channel;
        mapped = r.mapped;
        valid = queued.valid;
        same_size = queued.same_size ∙ r.same_size;
        done = r.done;
        waiting = r.waiting ++ m ∷ [];
        split = rw (r.split, append_assoc) refl;
        short = All-append IsShort r.waiting (m ∷ []) r.short (short, tt);
        brief = All-append IsBrief r.waiting (m ∷ []) r.brief (brief, tt);
        holds = queued.holds;
        count = r.count;
        sent = r.sent;
      }

  serve-Running :
      (size k : ℕ) (log : List Bytes) (past : List Message) (sh : Shell sem)
      → ((log' : List Bytes) (bytes : Bytes) → accepts log' bytes ≡ true)
      → Running size k log past sh
      → Running size k log past (process sem accepts sh.buffer.size true sh).1
  serve-Running size k log past sh all r =
      let rep =
        process-Reports sem law accepts r.waiting sh.buffer.size sh
          (length-lt-size sh.buffer r.waiting r.valid r.holds) r.channel r.mapped r.valid r.short
          r.holds in
      let full = deliver-Complete accepts 0 (law.count sh.serial) sh.sent r.waiting all r.brief in
      record {
        channel = rep.channel;
        mapped = rep.mapped;
        valid = rep.valid;
        same_size = rep.same_size ∙ r.same_size;
        done = r.done ++ r.waiting;
        waiting = [];
        split = rw append-nil r.split;
        short = tt;
        brief = tt;
        holds = rep.holds ∙ ap encode full.left;
        count = rep.counted ∙ full.count ∙ rw (r.count, count_after-append);
        sent = rep.wrote ∙ full.sent ∙ rw (r.sent, r.count, lines-append, append_assoc);
      }

  step-Running :
      (size k : ℕ) (log : List Bytes) (past : List Message) (sh : Shell sem) (e : Event)
      → ((log' : List Bytes) (bytes : Bytes) → accepts log' bytes ≡ true)
      → Fits size e
      → Running size k log past sh
      → Running size k log (past ++ (step sem accepts sh e).1) (step sem accepts sh e).0
  unfolding step
  step-Running size k log past sh serve all f r =
      rw append-nil (serve-Running size k log past sh all r)
  step-Running size k log past sh (post m) all f r =
      elim (Bool-cases (has_room sh.buffer (message_size m))) [
        | inl room ↦ rw room (store-Running size k log past m sh r f.0 f.1 f.2 room)
        | inr full ↦ rw (full, append-nil) r
      ]

  run-Running :
      (size k : ℕ) (log : List Bytes) (past : List Message) (sh : Shell sem) (es : List Event)
      → ((log' : List Bytes) (bytes : Bytes) → accepts log' bytes ≡ true)
      → All (Fits size) es
      → Running size k log past sh
      → Running size k log (past ++ (run sem accepts sh es).1) (run sem accepts sh es).0
  unfolding run
  run-Running size k log past sh [] all f r = rw append-nil r
  run-Running size k log past sh (e ∷ es) all f r = rw (← append_assoc) (
      run-Running size k log (past ++ (step sem accepts sh e).1) (step sem accepts sh e).0 es all
        f.1 (step-Running size k log past sh e all f.0 r))

  -- Let a session start with a valid buffer that holds the messages `q`, let these and every message
  -- posted fit the reader's arrays and, with any number, a line of fewer than 1024 bytes, let those
  -- posted fit the buffer, the semaphore count and the channel accept everything. After any sequence of
  -- posts and services the channel has been given one line for each of some messages, numbered on from
  -- the semaphore's count, the buffer is valid and holds some others, and the two together are `q` and
  -- the messages stored, in the order in which they were stored.
  pub run-in_order :
      (q : List Message) (sh : Shell sem) (es : List Event)
      → ((log : List Bytes) (bytes : Bytes) → accepts log bytes ≡ true)
      → sh.channel ≡ true
      → sh.mapped ≡ true
      → IsValid sh.buffer
      → All IsShort q
      → All IsBrief q
      → Holds sh.buffer q
      → All (Fits sh.buffer.size) es
      → Running sh.buffer.size
          (law.count sh.serial)
          sh.sent
          (q ++ (run sem accepts sh es).1)
          (run sem accepts sh es).0
  run-in_order q sh es all channel mapped v short brief h f =
      run-Running sh.buffer.size (law.count sh.serial) sh.sent q sh es all f (record {
        channel = channel;
        mapped = mapped;
        valid = v;
        same_size = refl;
        done = [];
        waiting = q;
        split = refl;
        short = short;
        brief = brief;
        holds = h;
        count = refl;
        sent = rw append-nil;
      })
