-- ===== src/Shell/Session/Tests.antt =====
-- A session that is disconnected, comes back and ends.
use seamlessrdp.Base.{◌≡◌, ◌↔◌, refl, true, false, List, [], ◌∷◌, some, codes}
use seamlessrdp.Base.Int.{pos, ◌-ℤ◌}
use seamlessrdp.Shell.Command.{persistent}
use seamlessrdp.Shell.Session.{
  Session, Round, hello, hide, should_terminate, session_loop, body, apply_calls, track_connection,
  greet, survey, only_known, is_system, equal_nocase, to_lower,
}
use seamlessrdp.Shell.Session.Terminate.{Ends, should_terminate-Ends}

abbrev session : Session
session = record {
  session_id = 2;
  startup_procs = 100 ∷ [];
  system_procs = codes "ieuser.exe" ∷ [];
  connected = true;
  desktop_hidden = false;
  disconnect_ts = 0;
  persistent_mode = pos 1;
}

abbrev round : Round
round = record {
  connected = true;
  tested_at = 1000;
  now = 1000;
  hidden = false;
  mbox_cnt = 0;
  procs = some (record { session_id = 2; process_id = 7; name = codes "IEUser.exe" } ∷ []);
  calls = [];
}

abbrev rounds : List Round
rounds =
    record round { connected = false }
    ∷ record round { hidden = true }
    ∷ record round { calls = persistent 1 (pos 0) ∷ [] }
    ∷ []

-- the desktop check comes in the round whose test finds the counter 0
run-rounds : session_loop rounds (pos 1) session ≡ (
  false,
  record session { desktop_hidden = true; persistent_mode = pos 0 },
  hello 1 ∷ hide ∷ [],
)
unfolding session_loop body apply_calls track_connection greet survey should_terminate ◌-ℤ◌
run-rounds = refl

-- The session is not persistent, and its only process is a system process.
abbrev transient : Session
transient = record session { persistent_mode = pos 0 }

should_terminate-Ends_example :
    (should_terminate 1000 0 round.procs transient ≡ true) ↔ Ends 1000 0 round.procs transient
should_terminate-Ends_example = should_terminate-Ends 1000 0 round.procs transient

session_loop-over :
    (session_loop (round ∷ []) (pos 0) (record session { persistent_mode = pos 0 })).0 ≡ true
unfolding session_loop should_terminate only_known is_system equal_nocase to_lower
session_loop-over = refl
