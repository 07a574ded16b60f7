-- ===== src/Shell/Session/Rounds.antt =====
-- What the loop of `WinMain` keeps from round to round.
use mathlib.Core.List.{Memᴰ}
use seamlessrdp.Base.{
  ℕ_discrete, ℕ, ◌/◌, ◌%◌, ◌≡◌, ◌≢◌, inl, inr, refl, ◌∙◌, ap, sym, Bool, true, false, List, [], ◌∷◌,
  ◌++◌, arith, ◌==◌, ◌&&◌, Bool-cases,
}
use seamlessrdp.Base.Int.{ℤ, pos, eq_ℤ, ◌-ℤ◌}
use seamlessrdp.Shell.Command.{Call, persistent}
use seamlessrdp.Shell.Session.{
  Session, Notice, hello, hide, unhide, Round, track_connection, greet, survey, apply_calls, body,
  should_terminate, session_loop,
}

-- what the commands leave alone
record Kept (s s' : Session) : Type 0 where
  connected : s'.connected ≡ s.connected
  disconnect_ts : s'.disconnect_ts ≡ s.disconnect_ts
  desktop_hidden : s'.desktop_hidden ≡ s.desktop_hidden

apply_calls-Kept : (cs : List Call) (s : Session) → Kept s (apply_calls cs s)
unfolding apply_calls
apply_calls-Kept [] s = record { connected = refl; disconnect_ts = refl; desktop_hidden = refl }
apply_calls-Kept (persistent serial enable ∷ cs) s =
    let k = apply_calls-Kept cs (record s { persistent_mode = enable }) in
    record {
      connected = k.connected;
      disconnect_ts = k.disconnect_ts;
      desktop_hidden = k.desktop_hidden;
    }
apply_calls-Kept (_ ∷ cs) s = apply_calls-Kept cs s

-- `g_session_disconnect_ts` tells since when there has been no connection.
pub data Tracks (connected : Bool) (now before after : ℕ) : Type 0 where
  on : connected ≡ true → after ≡ 0 → Tracks connected now before after
  off : connected ≡ false → before ≡ 0 → after ≡ now → Tracks connected now before after
  still : connected ≡ false → before ≢ 0 → after ≡ before → Tracks connected now before after

track_connection-Tracks :
    (connected : Bool) (now ts : ℕ) → Tracks connected now ts (track_connection connected now ts)
unfolding track_connection
track_connection-Tracks true now ts = on refl (ground arith)
track_connection-Tracks false now ts = elim (ℕ_discrete ts 0) [
  | yes z ↦ off refl z (ground arith)
  | no nz ↦ still refl nz (ground arith)
]

-- Whether the client takes the desktop for hidden, after the messages that it has got.
abbrev pub view : Bool → List Notice → Bool
view hidden [] = hidden
view hidden (hello flags ∷ out) = view (flags / 2 % 2 == 1) out
view hidden (hide ∷ out) = view true out
view hidden (unhide ∷ out) = view false out

view-append : (h : Bool) (a b : List Notice) → view h (a ++ b) ≡ view (view h a) b
view-append h [] b = refl
view-append h (hello f ∷ a) b = view-append (f / 2 % 2 == 1) a b
view-append h (hide ∷ a) b = view-append true a b
view-append h (unhide ∷ a) b = view-append false a b

-- The client hears of what the step does to `g_desktop_hidden`.
record Greets (s : Session) (out : Session × List Notice) : Type 0 where
  disconnect_ts : out.0.disconnect_ts ≡ s.disconnect_ts
  heard : view s.desktop_hidden out.1 ≡ out.0.desktop_hidden

record Surveys (s : Session) (out : Session × List Notice) : Type 0 where
  connected : out.0.connected ≡ s.connected
  disconnect_ts : out.0.disconnect_ts ≡ s.disconnect_ts
  heard : view s.desktop_hidden out.1 ≡ out.0.desktop_hidden

greet-Greets : (connected : Bool) (s : Session) → Greets s (greet connected s)
unfolding greet
greet-Greets connected s = record { disconnect_ts = ground arith; heard = ground arith }

survey-Surveys : (hidden : Bool) (counter : ℤ) (s : Session) → Surveys s (survey hidden counter s)
unfolding survey
survey-Surveys hidden counter s = record {
  connected = ground arith;
  disconnect_ts = ground arith;
  heard = ground arith;
}

-- After each round `g_connected` is the state reported, and the time stamp is 0 while there is a
-- connection, the time of the round in which there is none any more, and unchanged from then on.
body-Tracks :
    (r : Round) (counter : ℤ) (s : Session)
    → ((body r counter s).0.1.connected ≡ r.connected)
      × Tracks r.connected r.now s.disconnect_ts (body r counter s).0.1.disconnect_ts
unfolding body
body-Tracks r counter s =
    let s1 = record s { disconnect_ts = track_connection r.connected r.now s.disconnect_ts } in
    let s3 = record (greet r.connected s1).0 { connected = r.connected } in
    let k = apply_calls-Kept r.calls (survey r.hidden counter s3).0 in
    let seen = survey-Surveys r.hidden counter s3 in
    let stamp =
      k.disconnect_ts ∙ seen.disconnect_ts ∙ (greet-Greets r.connected s1).disconnect_ts in
    (
      k.connected ∙ seen.connected,
      rw stamp (track_connection-Tracks r.connected r.now s.disconnect_ts),
    )

view-body :
    (r : Round) (counter : ℤ) (s : Session)
    → view s.desktop_hidden (body r counter s).1 ≡ (body r counter s).0.1.desktop_hidden
unfolding body
view-body r counter s =
    let s1 = record s { disconnect_ts = track_connection r.connected r.now s.disconnect_ts } in
    let s3 = record (greet r.connected s1).0 { connected = r.connected } in
    let greeting = (greet r.connected s1).1 in
    let change = (survey r.hidden counter s3).1 in
    view-append s.desktop_hidden greeting change
    ∙ ap (λ h. view h change) (greet-Greets r.connected s1).heard
    ∙ (survey-Surveys r.hidden counter s3).heard
    ∙ sym (apply_calls-Kept r.calls (survey r.hidden counter s3).0).desktop_hidden

-- A client that starts with the shell's own view of the desktop and reads the HELLO, HIDE and UNHIDE
-- messages of any number of rounds ends with the shell's view.
pub view-session_loop :
    (rs : List Round) (counter : ℤ) (s : Session)
    → view s.desktop_hidden (session_loop rs counter s).2
      ≡ (session_loop rs counter s).1.desktop_hidden
unfolding session_loop
view-session_loop [] counter s = refl
view-session_loop (r ∷ rs) counter s =
    let ((counter', s'), out) = body r (counter -ℤ pos 1) s in
    elim (Bool-cases (eq_ℤ counter (pos 0) && should_terminate r.tested_at r.mbox_cnt r.procs s)) [
      | inl stop ↦ rw (session_loop, stop) refl
      | inr go ↦
          rw (session_loop, go)
            (view-append s.desktop_hidden out (session_loop rs counter' s').2
              ∙ ap (λ h. view h (session_loop rs counter' s').2) (view-body r (counter -ℤ pos 1) s)
              ∙ view-session_loop rs counter' s')
    ]

-- If the loop has ended, it did so in one of the rounds, in whose state `should_terminate` was true;
-- that state is the one returned.
session_loop-ended :
    (rs : List Round) (counter : ℤ) (s : Session)
    → (session_loop rs counter s).0 ≡ true
    → (r : Round) × Memᴰ r rs
      × (should_terminate r.tested_at r.mbox_cnt r.procs (session_loop rs counter s).1 ≡ true)
unfolding session_loop
session_loop-ended [] counter s h = cc
session_loop-ended (r ∷ rs) counter s h =
    let ((counter', s'), out) = body r (counter -ℤ pos 1) s in
    let test = eq_ℤ counter (pos 0) && should_terminate r.tested_at r.mbox_cnt r.procs s in
    elim (Bool-cases test) [
      | inl stop ↦ rw (session_loop, stop) (r, Memᴰ.head refl, ground arith)
      | inr go ↦
          let later : (session_loop rs counter' s').0 ≡ true = rw (session_loop, go) at h in
          let (u, at, ends) = session_loop-ended rs counter' s' later in
          rw (session_loop, go) (u, Memᴰ.tail at, ends)
    ]
