-- ===== src/Vchannel/Write/Lock.antt =====
-- How often a process holds the mutex behind `vchannel_write`, and that a write which fails is the last
-- one that its process tries.
use mathlib.Core.List.{Memᴰ}
use seamlessrdp.Base.{
  ℕ, ◌+◌, ◌<◌, ◌≡◌, ◌≢◌, refl, Bool, true, false, not, List, [], ◌∷◌, Bytes, All, arith, length,
  ltb, ◌==◌, if◌then◌else◌,
}
use seamlessrdp.Vchannel.Buffer.{Buffer, max_line, has_room}
use seamlessrdp.Vchannel.Message.{Message, message_size, store}
use seamlessrdp.Vchannel.Write.{
  Client, Opens, LockAnswer, granted, abandoned, refused, Turn, Result, stored, failed, aborted,
  unterminated, waiting, give_up, take_lock, release_lock, connect, wait_and_store, write,
}

-- Windows lets a process take a mutex that it holds already.
abbrev pub Reenters : ℕ → Turn → Type 0
Reenters held t = 0 < held → t.relocked ≡ true

held-connect : (o : Opens) (c : Client) → (connect o c).1.held ≡ c.held
unfolding connect
held-connect o c = ground arith

-- How often a process holds the mutex behind a call, and what the call answers.
pub data Holding (held : ℕ) (ts : List Turn) : Result × Client → Type 0 where
  as_before : (r : Result) (c : Client) → c.held ≡ held → Holding held ts (r, c)
  once_more :
      (c : Client) (t : Turn)
      → Memᴰ t ts
      → t.locked ≡ abandoned
      → c.held ≡ held + 1
      → Holding held ts (failed, c)

Holding-tail :
    (held : ℕ) (t : Turn) (ts : List Turn) (x : Result × Client)
    → Holding held ts x
    → Holding held (t ∷ ts) x
Holding-tail held t ts _ (as_before r c same) = as_before r c same
Holding-tail held t ts _ (once_more c u at gone more) = once_more c u (Memᴰ.tail at) gone more

Holding-if :
    (held : ℕ) (ts : List Turn) (test : Bool) (x y : Result × Client)
    → Holding held ts x
    → Holding held ts y
    → Holding held ts (if test then x else y)
Holding-if held ts true x y h k = h
Holding-if held ts false x y h k = k

-- the wait for the read event is not granted
held-given_up :
    (held : ℕ) (t : Turn) (c : Client)
    → c.held ≡ held
    → Reenters held t
    → (release_lock (give_up (if t.relocked then take_lock c else c))).held ≡ held
held-given_up held t c same r = ground (arith, same, r)

Holding-step :
    (held : ℕ) (t : Turn) (ts : List Turn) (c : Client) (m : Message) (answer : LockAnswer)
    → t.locked ≡ answer
    → c.held ≡ held
    → Reenters held t
    → Holding held ts (wait_and_store ts c m)
    → Holding held (t ∷ ts) (wait_and_store (t ∷ ts) c m)
unfolding wait_and_store
Holding-step held t ts c m refused e same r rest =
    simp (e, wait_and_store) (as_before failed (give_up c) same)
Holding-step held t ts c m abandoned e same r rest =
    simp (e, wait_and_store)
      (once_more (give_up (take_lock c)) t (Memᴰ.head refl) e (omega (arith, same)))
Holding-step held t ts c m granted e same r rest =
    simp (e, wait_and_store)
      (Holding-if held (t ∷ ts) (has_room t.seen (message_size m)) _ _
        (as_before (stored (store t.seen m)) (release_lock (take_lock c)) (omega (arith, same)))
        (Holding-if held (t ∷ ts) t.event _ _ (Holding-tail held t ts _ rest)
          (as_before failed _ (held-given_up held t c same r))))

Holding-wait_and_store :
    (held : ℕ) (ts : List Turn) (c : Client) (m : Message)
    → c.held ≡ held
    → All (Reenters held) ts
    → Holding held ts (wait_and_store ts c m)
unfolding wait_and_store
Holding-wait_and_store held [] c m same r = as_before waiting c same
Holding-wait_and_store held (t ∷ ts) c m same r =
    Holding-step held t ts c m t.locked refl same r.0 (Holding-wait_and_store held ts c m same r.1)

-- Let a process that holds the mutex be able to take it once more. Whatever `vchannel_write` returns,
-- and also while it waits for the read event, the process holds the mutex as often as before the
-- call; except that a write whose wait for the mutex is answered with WAIT_ABANDONED may return -1 and
-- hold it once more.
pub held-write :
    (o : Opens) (ts : List Turn) (c : Client) (command text : Bytes)
    → All (Reenters c.held) ts
    → Holding c.held ts (write o ts c command text)
unfolding write
held-write o ts c command text r =
    let c1 = (connect o c).1 in
    let m : Message = record { command = command; args = text } in
    let same : c1.held ≡ c.held = held-connect o c in
    let looped = Holding-wait_and_store c.held ts c1 m same r in
    Holding-if c.held ts (not c.shell) _ _ (as_before failed c refl) (
      Holding-if c.held ts (not (connect o c).0) _ _ (as_before failed c1 same) (
        Holding-if c.held ts (length text == 0) _ _ (as_before aborted c1 same) (
          Holding-if c.held ts (ltb max_line (length text)) _ _ (as_before aborted c1 same) (
            Holding-if c.held ts (length text == max_line) _ _ (as_before unterminated c1 same)
              looped))))

shell-wait_and_store :
    (ts : List Turn) (c : Client) (m : Message) (c' : Client)
    → wait_and_store ts c m ≡ (failed, c')
    → c'.shell ≡ false
unfolding wait_and_store
shell-wait_and_store [] c m c' e = cc
shell-wait_and_store (t ∷ ts) c m c' e = ground (arith, shell-wait_and_store ts c m c')

shell-connect : (o : Opens) (c : Client) → (connect o c).0 ≡ false → (connect o c).1.shell ≡ false
unfolding connect
shell-connect o c e = ground arith

-- A process whose write returned -1 has taken its last turn: every later write returns -1 at once and
-- changes nothing.
write-failed :
    (o o' : Opens) (ts ts' : List Turn) (c c' : Client) (command text command' text' : Bytes)
    → write o ts c command text ≡ (failed, c')
    → write o' ts' c' command' text' ≡ (failed, c')
unfolding write
write-failed o o' ts ts' c c' command text command' text' e =
    let m : Message = record { command = command; args = text } in
    let dead : c'.shell ≡ false =
      ground (arith, shell-connect o c, shell-wait_and_store ts (connect o c).1 m c') in
    ground arith

wait_and_store-not_stored :
    (ts : List Turn) (c c' : Client) (m : Message) (b : Buffer)
    → All (λ t. has_room t.seen (message_size m) ≡ false) ts
    → wait_and_store ts c m ≢ (stored b, c')
unfolding wait_and_store
wait_and_store-not_stored [] c c' m b full e = cc
wait_and_store-not_stored (t ∷ ts) c c' m b full e =
    ground (arith, wait_and_store-not_stored ts c c' m b full.1, full.0)

-- While no turn shows room, the write stores nothing.
write-not_stored :
    (o : Opens) (ts : List Turn) (c c' : Client) (m : Message) (b : Buffer)
    → All (λ t. has_room t.seen (message_size m) ≡ false) ts
    → write o ts c m.command m.args ≢ (stored b, c')
unfolding write
write-not_stored o ts c c' m b full e =
    wait_and_store-not_stored ts (connect o c).1 c' m b full (ground arith)
