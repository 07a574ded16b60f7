-- ===== src/Vchannel/System.antt =====
-- The processes of a session around the shared buffer of ServerExe/vchannel.c. What touches the
-- buffer runs under the mutex `g_mutex`, so a session is a sequence of whole steps: a process stores
-- a message (the last round of its wait in `vchannel_write`), or the shell runs `vchannel_process`.
pub mod Lines
pub mod Order
mod Tests
use seamlessrdp.Base.{List, [], ◌∷◌, ◌++◌, Bool, true, Bytes, if◌then◌else◌}
use seamlessrdp.Vchannel.Buffer.{has_room}
use seamlessrdp.Vchannel.Message.{Message, message_size, store}
use seamlessrdp.Vchannel.Serial.{Semaphore}
use seamlessrdp.Vchannel.Process.{Shell, process}

pub data Event : Type 0 where
  post : Message → Event
  serve : Event

module _ (sem : Semaphore) (accepts : List Bytes → Bytes → Bool) where
  -- A round of a writer that finds no room changes nothing. With the state come the messages stored.
  -- A call of `vchannel_process` needs fewer rounds than the buffer has bytes.
  unfoldable pub step : Shell sem → Event → Shell sem × List Message
  step sh (post m) =
      if has_room sh.buffer (message_size m)
      then (record sh { buffer = store sh.buffer m }, m ∷ [])
      else (sh, [])
  step sh serve = ((process sem accepts sh.buffer.size true sh).1, [])

  unfoldable pub run : Shell sem → List Event → Shell sem × List Message
  unfolding step
  run sh [] = (sh, [])
  run sh (e ∷ es) = let (sh1, ms) = step sh e in let (sh2, rest) = run sh1 es in (sh2, ms ++ rest)
