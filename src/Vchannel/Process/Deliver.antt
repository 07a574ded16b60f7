-- ===== src/Vchannel/Process/Deliver.antt =====
-- What `vchannel_process` of ServerExe/vchannel.c promises, on a queue of messages.
use seamlessrdp.Base.{ℕ, ◌+◌, Bool, true, false, List, [], ◌∷◌, ◌++◌, Bytes, ltb, length}
use seamlessrdp.Vchannel.Buffer.{max_line}
use seamlessrdp.Vchannel.Message.{Message}
use seamlessrdp.Vchannel.Serial.{render, newline}
use seamlessrdp.Vchannel.Serial.Count.{issued}

-- The number of messages sent, the semaphore's count, the calls of the channel, and the queue left.
pub record Report : Type 0 where
  pub messages : ℕ
  pub count : ℕ
  pub sent : List Bytes
  pub left : List Message

-- Each message of the queue takes a serial number. It is sent, with a newline of its own, unless its
-- line has 1024 bytes or more; a newline that is refused ends the delivery.
module _ (accepts : List Bytes → Bytes → Bool) where
  unfoldable pub deliver : ℕ → ℕ → List Bytes → List Message → Report
  deliver n k log [] = record { messages = n; count = k; sent = log; left = [] }
  deliver n k log (m ∷ q) =
      let line = render m (issued k) in
      let k' = issued k + 1 in
      let log' = log ++ line ∷ [] in
      elim (ltb (length line) max_line) [
        | false ↦ deliver n k' log q
        | true ↦ elim (accepts log' newline) [
          | true ↦ deliver (n + 1) k' (log' ++ newline ∷ []) q
          | false ↦ record { messages = n; count = k'; sent = log' ++ newline ∷ []; left = q }
        ]
      ]
