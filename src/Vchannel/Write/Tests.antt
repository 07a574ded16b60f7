-- ===== src/Vchannel/Write/Tests.antt =====
-- Writes that store at once, wait, and give up.
use seamlessrdp.Base.{◌≡◌, refl, true, false, List, [], ◌∷◌, codes, arith, ◌==◌, if◌then◌else◌}
use seamlessrdp.Vchannel.Buffer.{Buffer, has_room}
use seamlessrdp.Vchannel.Message.{Message, message_size, store}
use seamlessrdp.Vchannel.Write.{
  Client, Opens, granted, abandoned, Turn, stored, connect, write, wait_and_store,
}
use seamlessrdp.Vchannel.Write.Wait.{Appended, write-Appended}
use seamlessrdp.Vchannel.Write.Lock.{Holding, held-write}
use seamlessrdp.Vchannel.Samples.{ring, ack, loaded, ring-IsValid, loaded-IsValid, loaded-Holds}

abbrev connected : Client
connected = record {
  shell = true;
  mutex = true;
  map_file = true;
  buffer = true;
  evrd = true;
  evwr = true;
  held = 0;
}

abbrev opens : Opens
opens = record { mutex = true; map_file = true; view = true; evrd = false; evwr = true }

abbrev long_ack : Message
long_ack = record { command = codes "ACK"; args = codes "123456" }

abbrev turn : Buffer → Turn
turn b = record { locked = granted; seen = b; event = true; relocked = true }

-- the first turn sees 6 of 16 bytes used, too many for 11 more
abbrev turns : List Turn
turns = turn loaded ∷ turn ring ∷ []

full : has_room loaded (message_size long_ack) ≡ false
unfolding has_room
full = refl

write-turns :
    write opens turns connected (codes "ACK") (codes "123456")
    ≡ (stored (store ring long_ack), connected)
unfolding write wait_and_store connect has_room
write-turns = refl

-- The turn gets the mutex from a process that has ended while it held it.
abbrev orphaned : List Turn
orphaned = record { locked = abandoned; seen = ring; event = true; relocked = true } ∷ []

orphaned-held : (write opens orphaned connected (codes "ACK") (codes "1")).1.held ≡ 1
unfolding write wait_and_store connect
orphaned-held = refl

held-write_example : Holding 0 orphaned (write opens orphaned connected (codes "ACK") (codes "1"))
held-write_example =
    held-write opens orphaned connected (codes "ACK") (codes "1")
      (λ held. absurd (omega (arith, held)), tt)

-- what the turns see, as messages
abbrev seen_messages : Turn → List Message
seen_messages t = if t.seen.pw == 2 then ack ∷ [] else []

write-Appended_example : Appended seen_messages long_ack turns (store ring long_ack)
write-Appended_example =
    write-Appended seen_messages opens connected connected long_ack turns (store ring long_ack)
      (
        record { valid = loaded-IsValid; fits = omega arith; holds = loaded-Holds },
        (record { valid = ring-IsValid; fits = omega arith; holds = refl }, tt),
      )
      write-turns
