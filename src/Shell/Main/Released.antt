-- ===== src/Shell/Main/Released.antt =====
-- What `WinMain` has taken and given back on every way out, in which order.
use seamlessrdp.Base.{◌≡◌, ◌≢◌, Bool, true, false, ◌&&◌, List, [], none, some}
use seamlessrdp.Base.Int.{pos, negsuc}
use seamlessrdp.Shell.Session.{Round, session_loop}
use seamlessrdp.Shell.Launch.{launch_helper}
use seamlessrdp.Shell.Main.{Answers, Deed, Run, first_session}
use seamlessrdp.Shell.Main.Held.{use_deeds, nothing, opened, has, gone}

-- whether the loop comes to its end
abbrev pub loop_ended : Answers → List Round → Bool
loop_ended a rounds = (session_loop rounds (pos 5) (first_session a)).0

-- whether the helper is launched
abbrev pub has_helper : Answers → Bool
has_helper a = has (launch_helper a.converts a.architecture a.helper a.idle).1

-- The ways out of `WinMain`, and the loop.
pub data Releases (a : Answers) (rounds : List Round) : Run → Type 0 where
  -- there are arguments: nothing is taken, and the user stays
  refused :
      (ds : List Deed)
      → a.cmdline ≢ []
      → use_deeds nothing ds ≡ some nothing
      → Releases a rounds (record { deeds = ds; result = some (negsuc 0) })
  -- a failure in front of the channel
  failed_early :
      (ds : List Deed)
      → a.cmdline ≡ []
      → use_deeds nothing ds ≡ some (gone false false)
      → Releases a rounds (record { deeds = ds; result = some (negsuc 0) })
  -- the end of the session
  logged_off :
      (ds : List Deed)
      → a.cmdline ≡ []
      → loop_ended a rounds ≡ true
      → use_deeds nothing ds ≡ some (gone true (has_helper a && a.window))
      → Releases a rounds (record { deeds = ds; result = some (pos 1) })
  running :
      (ds : List Deed)
      → a.cmdline ≡ []
      → loop_ended a rounds ≡ false
      → use_deeds nothing ds ≡ some (record (opened (has_helper a)) { hooks = true })
      → Releases a rounds (record { deeds = ds; result = none })
