-- ===== src/Vchannel/Write/Wait.antt =====
-- The wait loop of `vchannel_write`: what a write that succeeds has stored, and when it succeeds.
use mathlib.Core.List.{Memᴰ}
use seamlessrdp.Base.{
  ◌⊎◌, ◌≤◌, ◌<◌, ◌≡◌, refl, true, false, inl, inr, List, [], ◌∷◌, ◌++◌, All, arith, length,
}
use seamlessrdp.Vchannel.Buffer.{Buffer, IsValid, has_room, max_line}
use seamlessrdp.Vchannel.Buffer.Space.{has_room_iff}
use seamlessrdp.Vchannel.Message.{Message, message_size, Holds, store}
use seamlessrdp.Vchannel.Message.Stored.{Queued, store-Queued}
use seamlessrdp.Vchannel.Write.{
  Client, Opens, granted, Turn, stored, is_connected, connect, wait_and_store, write,
}

-- A round that a write goes through without leaving the loop.
pub record IsBlocked (m : Message) (t : Turn) : Type 0 where
  pub locked : t.locked ≡ granted
  pub full : has_room t.seen (message_size m) ≡ false
  pub event : t.event ≡ true

-- What the other processes have left in the buffer at a turn, as messages.
pub record Shows (view : Turn → List Message) (m : Message) (t : Turn) : Type 0 where
  pub valid : IsValid t.seen
  pub fits : message_size m ≤ t.seen.size
  pub holds : Holds t.seen (view t)

-- A write has queued its message behind what one of the turns has seen.
pub record Appended (view : Turn → List Message) (m : Message) (ts : List Turn) (b : Buffer)
    : Type 0 where
  pub turn : Turn
  pub at : Memᴰ turn ts
  pub queued : Queued turn.seen (view turn ++ m ∷ []) b

Appended-tail :
    (view : Turn → List Message) (m : Message) (t : Turn) (ts : List Turn) (b : Buffer)
    → Appended view m ts b
    → Appended view m (t ∷ ts) b
Appended-tail view m t ts b a = record { turn = a.turn; at = Memᴰ.tail a.at; queued = a.queued }

-- a write that succeeds does so in this round, or goes on to the later ones
stored_cases :
    (m : Message) (t : Turn) (ts : List Turn) (c : Client) {c' : Client} {b : Buffer}
    → wait_and_store (t ∷ ts) c m ≡ (stored b, c')
    → ((has_room t.seen (message_size m) ≡ true) × (store t.seen m ≡ b) × (c'.held ≡ c.held))
      ⊎ (wait_and_store ts c m ≡ (stored b, c'))
unfolding wait_and_store
stored_cases m t ts c e = ground arith

wait_and_store-Appended :
    (view : Turn → List Message) (m : Message) (ts : List Turn) (c c' : Client) (b : Buffer)
    → All (Shows view m) ts
    → wait_and_store ts c m ≡ (stored b, c')
    → Appended view m ts b
unfolding wait_and_store
wait_and_store-Appended view m [] c c' b shows e = cc
wait_and_store-Appended view m (t ∷ ts) c c' b shows e = elim (stored_cases m t ts c e) [
  | inl (room, same, _) ↦
      let sh = shows.0 in
      record {
        turn = t;
        at = Memᴰ.head refl;
        queued = rw same at (
            store-Queued t.seen (view t) m sh.valid sh.holds
              ((has_room_iff t.seen (message_size m) sh.valid sh.fits).0 room));
      }
  | inr later ↦ Appended-tail view m t ts b (wait_and_store-Appended view m ts c c' b shows.1 later)
]

wait_and_store-stored :
    (full : List Turn) (t : Turn) (ts : List Turn) (c : Client) (m : Message)
    → All (IsBlocked m) full
    → t.locked ≡ granted
    → has_room t.seen (message_size m) ≡ true
    → wait_and_store (full ++ t ∷ ts) c m ≡ (stored (store t.seen m), c)
unfolding wait_and_store
wait_and_store-stored [] t ts c m blocked locked room = ground arith
wait_and_store-stored (u ∷ full) t ts c m blocked locked room =
    ground (arith, wait_and_store-stored full t ts c m blocked.1 locked room, blocked.0)

-- A write from a process that is connected, whose text has between 1 and 1023 bytes, goes through
-- any rounds that find the buffer full and get both the mutex and the read event, and then stores its
-- message in the first round with room.
write-stored :
    (o : Opens) (c : Client) (m : Message) (full : List Turn) (t : Turn) (ts : List Turn)
    → c.shell ≡ true
    → is_connected c ≡ true
    → 0 < length m.args
    → length m.args < max_line
    → All (IsBlocked m) full
    → t.locked ≡ granted
    → has_room t.seen (message_size m) ≡ true
    → write o (full ++ t ∷ ts) c m.command m.args ≡ (stored (store t.seen m), c)
unfolding write connect
write-stored o c m full t ts alive ready lo hi blocked locked room =
    ground (arith, wait_and_store-stored full t ts c m)

-- Let every turn see a valid buffer of at least the message's size that holds the messages of
-- `view`. If the write succeeds then one of the turns has seen messages behind which the new one now
-- stands in the buffer, which is valid, and nothing else has changed in the queue.
pub write-Appended :
    (view : Turn → List Message) (o : Opens) (c c' : Client) (m : Message) (ts : List Turn)
    (b : Buffer)
    → All (Shows view m) ts
    → write o ts c m.command m.args ≡ (stored b, c')
    → Appended view m ts b
unfolding write
write-Appended view o c c' m ts b shows e =
    wait_and_store-Appended view m ts (connect o c).1 c' b shows (ground arith)
