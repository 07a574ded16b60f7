-- ===== src/Vchannel/System/Lines.antt =====
-- What the client is sent for a sequence of messages, while the channel accepts everything.
use seamlessrdp.Base.{
  ℕ, ◌+◌, ◌≡◌, refl, ◌∙◌, Bool, true, List, [], ◌∷◌, ◌++◌, append-nil, append_assoc, Bytes, ltb,
  length, ◌<◌, All, arith,
}
use seamlessrdp.Vchannel.Buffer.{max_line}
use seamlessrdp.Vchannel.Message.{Message}
use seamlessrdp.Vchannel.Serial.{render, newline}
use seamlessrdp.Vchannel.Serial.Count.{issued}
use seamlessrdp.Vchannel.Process.Deliver.{Report, deliver}

-- With any serial number the message is a line that the shell forwards.
abbrev pub IsBrief : Message → Type 0
IsBrief m = (serial : ℕ) → length (render m serial) < max_line

-- Each message takes the next serial number, and is one line.
abbrev pub lines : ℕ → List Message → List Bytes
lines k [] = []
lines k (m ∷ q) = render m (issued k) ∷ newline ∷ lines (issued k + 1) q

-- the semaphore's count behind the messages
abbrev pub count_after : ℕ → List Message → ℕ
count_after k [] = k
count_after k (m ∷ q) = count_after (issued k + 1) q

pub lines-append :
    (k : ℕ) (p q : List Message) → lines k (p ++ q) ≡ lines k p ++ lines (count_after k p) q
lines-append k [] q = refl
lines-append k (m ∷ p) q = simp (lines-append (issued k + 1) p q)

pub count_after-append :
    (k : ℕ) (p q : List Message) → count_after k (p ++ q) ≡ count_after (count_after k p) q
count_after-append k [] q = refl
count_after-append k (m ∷ p) q = count_after-append (issued k + 1) p q

-- the report of a delivery that nothing stops
pub record Complete (k : ℕ) (log : List Bytes) (q : List Message) (r : Report) : Type 0 where
  pub left : r.left ≡ []
  pub count : r.count ≡ count_after k q
  pub sent : r.sent ≡ log ++ lines k q

pub deliver-Complete :
    (accepts : List Bytes → Bytes → Bool) (n k : ℕ) (log : List Bytes) (q : List Message)
    → ((log' : List Bytes) (bytes : Bytes) → accepts log' bytes ≡ true)
    → All IsBrief q
    → Complete k log q (deliver accepts n k log q)
unfolding deliver
deliver-Complete accepts n k log [] all brief = record {
  left = refl;
  count = refl;
  sent = rw append-nil;
}
deliver-Complete accepts n k log (m ∷ q) all (b, bs) =
    let line = render m (issued k) in
    let log' = log ++ line ∷ [] in
    let fits : ltb (length line) max_line ≡ true = ground (arith, b (issued k)) in
    let rest = deliver-Complete accepts (n + 1) (issued k + 1) (log' ++ newline ∷ []) q all bs in
    rw (deliver, fits, all log' newline)
      (record { left = rest.left; count = rest.count; sent = rest.sent ∙ simp append_assoc })
