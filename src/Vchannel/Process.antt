-- ===== src/Vchannel/Process.antt =====
-- `vchannel_process` of ServerExe/vchannel.c, by which the shell forwards the messages of the shared
-- buffer to the client. The virtual channel belongs to Windows and is a parameter.
pub mod Deliver
pub mod Refine
pub mod Failure
use seamlessrdp.Base.{
  ℕ, zero, suc, ◌+◌, ◌-◌, Bool, true, false, not, List, [], ◌∷◌, ◌++◌, Option, none, some, Bytes,
  ltb, ◌==◌, if◌then◌else◌, length,
}
use seamlessrdp.Vchannel.Buffer.{Buffer, max_line, get_string}
use seamlessrdp.Vchannel.Message.{Message}
use seamlessrdp.Vchannel.Serial
use seamlessrdp.Vchannel.Serial.{Semaphore, render, newline, next_serial}

-- What `vchannel_process` did: returned the number of messages, returned -1, failed its assertion,
-- wrote past the end of `command` or `args`, or is still in one of its loops after the given rounds.
pub data Outcome : Type 0 where
  processed : ℕ → Outcome
  error : Outcome
  aborted : Outcome
  overrun : Outcome
  unfinished : Outcome

-- The shell. `channel` and `mapped` tell which of `g_vchannel` and `g_buffer` are not NULL, `prev` is
-- `prev_serial`, `held` the times that `g_mutex` is taken and not released, `sent` the calls of
-- `WTSVirtualChannelWrite` and `read_events` the number of those of `SetEvent(g_evrd)`.
pub record Shell (sem : Semaphore) : Type 0 where
  pub channel : Bool
  pub mapped : Bool
  pub buffer : Buffer
  pub serial : sem.State
  pub prev : ℕ
  pub held : ℕ
  pub sent : List Bytes
  pub read_events : ℕ

-- "read command string from buffer" and "read args string from buffer"
unfoldable pub receive : Buffer → Option (Message × Buffer)
receive b = elim (get_string max_line b) [
  | none ↦ none
  | some (c, b1) ↦ elim (get_string max_line b1) [
    | none ↦ none
    | some (a, b2) ↦ some (record { command = c; args = a }, b2)
  ]
]

-- how the body of the loop ends: by `continue`, by `break`, or at its end
pub data Delivery : Type 0 where
  skipped broken delivered : Delivery

module _ (sem : Semaphore) (accepts : List Bytes → Bytes → Bool) where
  -- The message is built and written. `accepts log bytes` is the result of
  -- `WTSVirtualChannelWrite` for `bytes` after the calls of `log`; that of the first call is
  -- overwritten by that of the second.
  unfoldable pub forward : Shell sem → Message → Delivery × Shell sem
  forward sh m =
      let line = render m sh.prev in
      let log = sh.sent ++ line ∷ [] in
      if not (ltb (length line) max_line)
      then (skipped, sh)
      else if accepts log newline
      then (delivered, record sh { sent = log ++ newline ∷ [] })
      else (broken, record sh { sent = log ++ newline ∷ [] })

  -- the body behind the serial step
  unfoldable pub transfer : Shell sem → Option (Delivery × Shell sem)
  transfer sh = elim (receive sh.buffer) [
    | none ↦ none
    | some (m, b) ↦ some (forward (record sh { buffer = b; read_events = sh.read_events + 1 }) m)
  ]

  abbrev pub release_lock : Shell sem → Shell sem
  release_lock sh = record sh { held = sh.held - 1 }

  -- `while (g_buffer->pr != g_buffer->pw)`, entered with the lock held
  unfoldable pub process_loop : ℕ → ℕ → Shell sem → Outcome × Shell sem
  process_loop zero messages sh = (unfinished, sh)
  process_loop (suc fuel) messages sh = elim (sh.buffer.pr == sh.buffer.pw) [
    | true ↦ (processed messages, release_lock sh)
    | false ↦ elim (next_serial sem sh.serial sh.prev) [
      | Serial.unfinished ↦ (unfinished, sh)
      | Serial.error s ↦ (error, record sh { serial = s })
      | Serial.numbered s k ↦ elim (transfer (record sh { serial = s; prev = k })) [
        | none ↦ (overrun, sh)
        | some (skipped, sh') ↦ process_loop fuel messages sh'
        | some (delivered, sh') ↦ process_loop fuel (messages + 1) sh'
        | some (broken, sh') ↦ (processed messages, release_lock sh')
      ]
    ]
  ]

  -- `woken` tells whether the wait for the write event ends before its time is over; the wait for
  -- the mutex has no limit. The fuel is for the loop over the messages.
  unfoldable pub process : ℕ → Bool → Shell sem → Outcome × Shell sem
  process fuel woken sh =
      if not sh.channel
      then (aborted, sh)
      else if not sh.mapped
      then (error, sh)
      else if not woken
      then (processed 0, sh)
      else let locked = record sh { held = sh.held + 1 } in
        if sh.buffer.pr == sh.buffer.pw
        then (processed 0, release_lock locked)
        else process_loop fuel 0 locked
