-- ===== src/Hook/Stream/Tests.antt =====
-- A hook posts a title and an acknowledgement, and the shell serves the buffer.
use seamlessrdp.Base.{ℕ, refl, [], ◌∷◌, List, All, arith, codes, replicate, length-replicate}
use seamlessrdp.Vchannel.Buffer.{Buffer, IsValid}
use seamlessrdp.Vchannel.Process.{Shell}
use seamlessrdp.Vchannel.System.{Event, post, serve, run}
use seamlessrdp.Vchannel.Samples.{counter, counter-Counts, shell, open_channel}
use seamlessrdp.Hook.{title, ack}
use seamlessrdp.Hook.Print.{print}
use seamlessrdp.Hook.Stream.{IsHooked, posted, served, Streams, run-Streams}

abbrev wide_buffer : Buffer
wide_buffer = record { pw = 1000; pr = 1000; size = 1024; bytes = replicate 1024 0 }

wide_buffer-IsValid : IsValid wide_buffer
wide_buffer-IsValid = record {
  storage = length-replicate {A = ℕ} 1024 0;
  small = omega arith;
  writer_in = omega arith;
  reader_in = omega arith;
}

abbrev wide_shell : Shell counter
wide_shell = record shell { buffer = wide_buffer }

abbrev events : List Event
events = post (print (title 0x2002A (codes "Notes"))) ∷ serve ∷ post (print (ack 7)) ∷ []

events-IsHooked : All IsHooked events
events-IsHooked =
    (posted (title 0x2002A (codes "Notes")) (omega arith), (served, (posted (ack 7) tt, tt)))

run-Streams_example :
    Streams
      (counter-Counts.count 41)
      (run counter open_channel wide_shell events).1
      (run counter open_channel wide_shell events).0.sent
run-Streams_example =
    run-Streams counter counter-Counts open_channel wide_shell events (λ log bytes. refl) refl refl
      wide_buffer-IsValid (omega arith) refl refl events-IsHooked
