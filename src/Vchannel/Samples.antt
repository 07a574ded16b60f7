-- ===== src/Vchannel/Samples.antt =====
-- Small buffers, messages and shells for the tests of the transport.
use Prim.Native.Nat.{min}
use seamlessrdp.Base.{
  ℕ, ◌+◌, ◌-◌, refl, Bool, true, false, List, [], ◌∷◌, Bytes, codes, arith, ltb, ◌==◌,
  if◌then◌else◌, replicate,
}
use seamlessrdp.Vchannel.Buffer.{Buffer, IsValid, advance}
use seamlessrdp.Vchannel.Message.{Message, IsShort, Holds}
use seamlessrdp.Vchannel.Serial.{released, too_many_posts, Semaphore, Counts, int_max}
use seamlessrdp.Vchannel.Process.{Shell}

-- a ring of 16 bytes whose positions are near the end
abbrev pub ring : Buffer
ring = record { pw = 12; pr = 12; size = 16; bytes = replicate 16 0 }

abbrev pub ack : Message
ack = record { command = codes "ACK"; args = codes "7" }

abbrev pub loaded : Buffer
loaded = record {
  pw = 2;
  pr = 12;
  size = 16;
  bytes = b'7' ∷ 0 ∷ 0 ∷ 0 ∷ 0 ∷ 0 ∷ 0 ∷ 0 ∷ 0 ∷ 0 ∷ 0 ∷ 0 ∷ b'A' ∷ b'C' ∷ b'K' ∷ 0 ∷ [];
}

pub ring-IsValid : IsValid ring
ring-IsValid = omega arith

pub loaded-IsValid : IsValid loaded
loaded-IsValid = omega arith

pub loaded-Holds : Holds loaded (ack ∷ [])
unfolding advance
loaded-Holds = refl

pub ack-IsShort : IsShort ack
ack-IsShort = omega arith

-- A semaphore that counts up to INT_MAX.
abbrev pub counter : Semaphore
counter = record {
  State = ℕ;
  release = λ s. if ltb s int_max then (released s, s + 1) else (too_many_posts, s);
  take = λ s. if s == 0 then (false, s) else (true, min s int_max - 1);
}

pub counter-Counts : Counts counter
counter-Counts = record {
  count = λ s. min s int_max;
  bounded = λ s. omega arith;
  release_below = λ s h. ground arith;
  release_full = λ s h. ground arith;
  take_some = λ s h. ground arith;
  take_none = λ s h. ground arith;
}

abbrev pub shell : Shell counter
shell = record {
  channel = true;
  mapped = true;
  buffer = loaded;
  serial = 41;
  prev = 0;
  held = 0;
  sent = [];
  read_events = 0;
}

abbrev pub open_channel : List Bytes → Bytes → Bool
open_channel log bytes = true
