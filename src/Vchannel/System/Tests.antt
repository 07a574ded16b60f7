-- ===== src/Vchannel/System/Tests.antt =====
-- A session of two posts and a service.
use seamlessrdp.Base.{◌≡◌, refl, [], ◌∷◌, List, arith, codes, length-append}
use seamlessrdp.Vchannel.Buffer.{has_room, get_string}
use seamlessrdp.Vchannel.Message.{store}
use seamlessrdp.Vchannel.Process.{process, process_loop, transfer, forward, receive}
use seamlessrdp.Vchannel.Serial.{next_serial, render, decimal, newline}
use seamlessrdp.Vchannel.System.{Event, post, serve, run, step}
use seamlessrdp.Vchannel.System.Lines.{IsBrief}
use seamlessrdp.Vchannel.Format.Plain.{decimal-IsField}
use seamlessrdp.Vchannel.System.Order.{Running, run-in_order}
use seamlessrdp.Vchannel.Samples.{
  ack, loaded-IsValid, loaded-Holds, ack-IsShort, counter, counter-Counts, shell, open_channel,
}

ack-IsBrief : IsBrief ack
unfolding render
ack-IsBrief serial =
    ground (arith, (decimal-IsField serial).short, length-append (decimal serial) (codes ",7"))

abbrev events : List Event
events = post ack ∷ serve ∷ post ack ∷ post ack ∷ post ack ∷ []

-- the first two messages are sent, two wait and the last one finds no room
run-events :
    ((run counter open_channel shell events).0.sent
      ≡ codes "ACK,41,7" ∷ newline ∷ codes "ACK,42,7" ∷ newline ∷ [])
    × ((run counter open_channel shell events).1 ≡ ack ∷ ack ∷ ack ∷ [])
unfolding run step process process_loop transfer forward receive get_string next_serial render
    decimal store has_room
run-events = (refl, refl)

run-in_order_example :
    Running counter counter-Counts open_channel 16
      (counter-Counts.count 41)
      []
      (ack ∷ (run counter open_channel shell events).1)
      (run counter open_channel shell events).0
run-in_order_example =
    run-in_order counter counter-Counts open_channel (ack ∷ []) shell events (λ log bytes. refl)
      refl refl loaded-IsValid (ack-IsShort, tt) (ack-IsBrief, tt) loaded-Holds
      (
        (ack-IsShort, omega arith, ack-IsBrief),
        (
          tt,
          (
            (ack-IsShort, omega arith, ack-IsBrief),
            (
              (ack-IsShort, omega arith, ack-IsBrief),
              ((ack-IsShort, omega arith, ack-IsBrief), tt),
            ),
          ),
        ),
      )
