-- ===== src/Vchannel/Process/Refine.antt =====
-- `vchannel_process` on the shared ring behaves as `deliver` on the queue of its messages.
use seamlessrdp.Base.{
  ℕ, zero, suc, ◌+◌, ◌-◌, ◌<◌, ◌≡◌, ◌≢◌, refl, ap, ◌∙◌, Bool, true, false, inl, inr, List, [], ◌∷◌,
  ◌++◌, some, Bytes, All, arith, ltb, ◌==◌, length, Bool-cases, length-append,
}
use seamlessrdp.Vchannel.Buffer.{Buffer, IsValid, max_line}
use seamlessrdp.Vchannel.Buffer.Window.{used}
use seamlessrdp.Vchannel.Buffer.Strings.{length-contents, Taken, get_string-Taken}
use seamlessrdp.Vchannel.Message.{Message, IsShort, encode, Holds}
use seamlessrdp.Vchannel.Serial.{Semaphore, Counts, render, newline}
use seamlessrdp.Vchannel.Serial.Count.{issued, next_serial-issued}
use seamlessrdp.Vchannel.Process.Deliver.{Report, deliver}
use seamlessrdp.Vchannel.Process.{
  Outcome, processed, Shell, receive, forward, transfer, process_loop, process,
}

-- The oldest message of the buffer is read back as it was written, without leaving the arrays.
pub receive-Taken :
    (b : Buffer) (m : Message) (q : List Message)
    → IsValid b
    → IsShort m
    → Holds b (m ∷ q)
    → (b' : Buffer) × (receive b ≡ some (m, b')) × Taken b (encode q) b'
unfolding receive
receive-Taken b m q v short h =
    let (b1, first, t1) =
      get_string-Taken m.command max_line b (m.args ++ 0 ∷ encode q) v short.command_text
        short.command_fits h in
    let (b2, second, t2) =
      get_string-Taken m.args max_line b1 (encode q) t1.valid short.args_text short.args_fits
        t1.remaining in
    (
      b2,
      rw (receive, first, second) refl,
      record {
        valid = t2.valid;
        same_size = t2.same_size ∙ t1.same_size;
        remaining = t2.remaining;
      },
    )

-- the loop's test: the positions meet exactly on an empty queue
empty-test : (b : Buffer) → IsValid b → Holds b [] → (b.pr == b.pw) ≡ true
empty-test b v h =
    let none_used : used b ≡ 0 = omega (arith, length-contents b, ap length h) in ground arith

nonempty-test :
    (b : Buffer) (m : Message) (q : List Message) → Holds b (m ∷ q) → (b.pr == b.pw) ≡ false
nonempty-test b m q h =
    let some_used : used b ≢ 0 = omega (
      arith,
      length-contents b,
      ap length h,
      length-append m.command (0 ∷ (m.args ++ 0 ∷ encode q)),
    ) in
    ground arith

module _ (sem : Semaphore) (law : Counts sem) (accepts : List Bytes → Bytes → Bool) where
  -- The loop has ended as the report says, and the lock that was held is released.
  pub record Reports (held size : ℕ) (r : Report) (out : Outcome × Shell sem) : Type 0 where
    pub returned : out.0 ≡ processed r.messages
    pub counted : law.count out.1.serial ≡ r.count
    pub wrote : out.1.sent ≡ r.sent
    pub valid : IsValid out.1.buffer
    pub holds : Holds out.1.buffer r.left
    pub lock : out.1.held ≡ held
    pub same_size : out.1.buffer.size ≡ size
    pub channel : out.1.channel ≡ true
    pub mapped : out.1.mapped ≡ true

  process_loop-Reports :
      (q : List Message) (fuel n : ℕ) (sh : Shell sem)
      → length q < fuel
      → sh.channel ≡ true
      → sh.mapped ≡ true
      → IsValid sh.buffer
      → All IsShort q
      → Holds sh.buffer q
      → Reports
          (sh.held - 1)
          sh.buffer.size
          (deliver accepts n (law.count sh.serial) sh.sent q)
          (process_loop sem accepts fuel n sh)
  unfolding process_loop deliver transfer forward
  process_loop-Reports q zero n sh f channel mapped v short h = absurd (omega arith)
  process_loop-Reports [] (suc fuel) n sh f channel mapped v short h =
      rw (process_loop, empty-test sh.buffer v h)
        (record {
          returned = refl;
          counted = refl;
          wrote = refl;
          valid = v;
          holds = h;
          lock = refl;
          same_size = refl;
          channel = channel;
          mapped = mapped;
        })
  process_loop-Reports (m ∷ q) (suc fuel) n sh f channel mapped v short h =
      let (s, num, more) = next_serial-issued sem law sh.serial sh.prev in
      let (b, read, taken) = receive-Taken sh.buffer m q v short.0 h in
      let going = nonempty-test sh.buffer m q h in
      let line = render m (issued (law.count sh.serial)) in
      let log = sh.sent ++ line ∷ [] in
      let sh1 = record sh {
        buffer = b;
        serial = s;
        prev = issued (law.count sh.serial);
        read_events = sh.read_events + 1;
      } in
      let later = λ (messages : ℕ) (log' : List Bytes).
        process_loop-Reports q fuel messages (record sh1 { sent = log' }) (omega arith) channel
          mapped taken.valid short.1 taken.remaining in
      elim (Bool-cases (ltb (length line) max_line)) [
        | inr long ↦
            rw (process_loop, going, num, transfer, read, forward, deliver, long)
              (rw (more, taken.same_size) at (later n sh.sent))
        | inl fits ↦ elim (Bool-cases (accepts log newline)) [
          | inl done ↦
              rw (process_loop, going, num, transfer, read, forward, deliver, fits, done)
                (rw (more, taken.same_size) at (later (n + 1) (log ++ newline ∷ [])))
          | inr lost ↦
              rw (process_loop, going, num, transfer, read, forward, deliver, fits, lost)
                (record {
                  returned = refl;
                  counted = more;
                  wrote = refl;
                  valid = taken.valid;
                  holds = taken.remaining;
                  lock = refl;
                  same_size = taken.same_size;
                  channel = channel;
                  mapped = mapped;
                })
        ]
      ]

  -- Let the shell have the channel open and the buffer mapped, let the buffer be valid and hold the
  -- messages `q`, all short enough for the arrays `command` and `args`, and let the semaphore count.
  -- Then `vchannel_process`, woken by the write event, comes back after at most as many rounds as
  -- there are messages, having overrun no array: it returns the number of messages that `deliver`
  -- sends, has made the channel calls of `deliver`, leaves in a valid buffer the messages that
  -- `deliver` leaves, and holds the mutex as often as before.
  pub process-Reports :
      (q : List Message) (fuel : ℕ) (sh : Shell sem)
      → length q < fuel
      → sh.channel ≡ true
      → sh.mapped ≡ true
      → IsValid sh.buffer
      → All IsShort q
      → Holds sh.buffer q
      → Reports sh.held sh.buffer.size
          (deliver accepts 0 (law.count sh.serial) sh.sent q)
          (process sem accepts fuel true sh)
  unfolding process deliver
  process-Reports [] fuel sh f channel mapped v short h =
      rw (process, channel, mapped, empty-test sh.buffer v h)
        (record {
          returned = refl;
          counted = refl;
          wrote = refl;
          valid = v;
          holds = h;
          lock = omega arith;
          same_size = refl;
          channel = refl;
          mapped = refl;
        })
  process-Reports (m ∷ q) fuel sh f channel mapped v short h =
      let locked = record sh { channel = true; mapped = true; held = sh.held + 1 } in
      let balanced : locked.held - 1 ≡ sh.held = omega arith in
      rw (process, channel, mapped, nonempty-test sh.buffer m q h)
        (rw balanced at (process_loop-Reports (m ∷ q) fuel 0 locked f refl refl v short h))
