-- ===== src/Vchannel/Tests.antt =====
-- The transport at small inputs, and the theorems about it at inputs that meet their hypotheses.
use seamlessrdp.Base.{
  ℕ, ◌+◌, ◌<◌, ◌≡◌, ◌↔◌, refl, true, false, [], ◌∷◌, some, codes, length-replicate, arith,
}
use seamlessrdp.Vchannel.Buffer.{has_room, put_byte, get_string, empty_buffer, buffer_size}
use seamlessrdp.Vchannel.Open.{Handles, Creates, vchannel_open}
use seamlessrdp.Vchannel.Open.Opened.{IsOpening, IsOpening-vchannel_open, creates_all}
use seamlessrdp.Vchannel.Buffer.Space.{has_room_iff}
use seamlessrdp.Vchannel.Message.{store}
use seamlessrdp.Vchannel.Message.Stored.{Queued, store-Queued}
use seamlessrdp.Vchannel.Serial.{
  too_many_posts, Semaphore, next_serial, number_again, render, decimal, newline, drain,
}
use seamlessrdp.Vchannel.Process.{
  processed, error, Shell, process, process_loop, receive, transfer, forward,
}
use seamlessrdp.Vchannel.Process.Deliver.{deliver}
use seamlessrdp.Vchannel.Process.Refine.{Reports, process-Reports}
use seamlessrdp.Vchannel.Process.Failure.{process-error}
use seamlessrdp.Vchannel.Samples.{
  ring, ack, loaded, loaded-IsValid, loaded-Holds, ack-IsShort, counter, counter-Counts, shell,
  open_channel,
}

store-ring : store ring ack ≡ loaded
unfolding store put_byte
store-ring = refl

receive-loaded : receive loaded ≡ some (ack, record loaded { pr = 2 })
unfolding receive get_string
receive-loaded = refl

has_room_iff_example : (has_room loaded 10 ≡ true) ↔ (6 + 10 < 16)
has_room_iff_example = has_room_iff loaded 10 loaded-IsValid (omega arith)

room_limits : (has_room loaded 9 ≡ true) × (has_room loaded 10 ≡ false) × (has_room ring 15 ≡ true)
unfolding has_room
room_limits = (refl, refl, refl)

store-Queued_example : Queued loaded (ack ∷ ack ∷ []) (store loaded ack)
store-Queued_example = store-Queued loaded (ack ∷ []) ack loaded-IsValid loaded-Holds (omega arith)

process-loaded :
    let (outcome, sh) = process counter open_channel 2 true shell in
    (outcome ≡ processed 1) × (sh.sent ≡ codes "ACK,41,7" ∷ newline ∷ []) × (sh.serial ≡ 42)
unfolding process process_loop transfer forward receive get_string next_serial render decimal
process-loaded = (refl, refl, refl)

process-Reports_example :
    Reports counter counter-Counts open_channel 0 16
      (deliver open_channel 0 (counter-Counts.count 41) [] (ack ∷ []))
      (process counter open_channel 2 true shell)
process-Reports_example =
    process-Reports counter counter-Counts open_channel (ack ∷ []) 2 shell (omega arith) refl refl
      loaded-IsValid (ack-IsShort, tt) loaded-Holds

-- A semaphore that is full for everybody but can no longer be taken.
abbrev stuck : Semaphore
stuck = record { State = ℕ; release = λ s. (too_many_posts, s); take = λ s. (false, s) }

abbrev stuck_shell : Shell stuck
stuck_shell = record {
  channel = true;
  mapped = true;
  buffer = loaded;
  serial = 0;
  prev = 0;
  held = 0;
  sent = [];
  read_events = 0;
}

process-stuck :
    process stuck open_channel 2 true stuck_shell ≡ (error, record stuck_shell { held = 1 })
unfolding process process_loop next_serial drain number_again
process-stuck = refl

process-error_example : 1 ≡ 0 + 1
process-error_example =
    process-error stuck open_channel 2 true stuck_shell (record stuck_shell { held = 1 }) refl refl
      process-stuck

-- the channel before it is opened; the event for the readers cannot be created
abbrev no_handles : Handles
no_handles = record {
  channel = false;
  mutex = false;
  serial = false;
  map_file = false;
  buffer = false;
  evrd = false;
  evwr = false;
}

abbrev no_event : Creates
no_event = record {
  channel = true;
  mutex = true;
  serial = true;
  map_file = true;
  view = true;
  evrd = false;
  evwr = true;
}

IsOpening-vchannel_open_example :
    IsOpening (creates_all no_event) empty_buffer (vchannel_open no_event no_handles empty_buffer)
unfolding empty_buffer
IsOpening-vchannel_open_example =
    IsOpening-vchannel_open no_event no_handles empty_buffer refl
      (length-replicate {A = ℕ} buffer_size 0)
