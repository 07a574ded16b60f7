-- ===== src/Shell/Main/Held.antt =====
-- What `WinMain` has taken and given back after some of its deeds.
use seamlessrdp.Base.{
  ℕ, ◌≡◌, refl, ◌∙◌, Bool, true, false, not, ◌&&◌, inl, inr, List, [], ◌∷◌, ◌++◌, Option, none,
  some, Option-cases, map, if◌then◌else◌, Bytes,
}
use seamlessrdp.Shell.Session.{Notice}
use seamlessrdp.Shell.Launch.{
  Act, box, launched, ask_close, wait_process, terminate_process, Architecture, intel, amd64,
  unsupported, Idle, ready, late, failed, launch_app, complain, show_failure, check_idle,
  launch_helper, Wait, ended, timeout, wait_failed, stop_waiting, kill_15_9,
}
use seamlessrdp.Shell.Main.{
  Answers, Deed, load_library, free_library, open_channel, of_process, write, set_hooks,
  remove_hooks, set_parameters, exit_windows, log_off, close_hookdll, stop_helper, finish,
}

-- What the shell has: the library, its hooks, the channel, a helper that it has not waited for; whether
-- the helper has been sent WM_CLOSE; and whether the user is still logged on.
pub record Held : Type 0 where
  pub library : Bool
  pub hooks : Bool
  pub channel : Bool
  pub helper : Bool
  pub asked : Bool
  pub logged_on : Bool

-- What a call does to that; `none` where it must not be made.
unfoldable pub act_on : Held → Act → Option Held
act_on h (launched process) = if h.helper then none else some (record h { helper = true })
act_on h (wait_process process) = if h.helper then some (record h { helper = false }) else none
act_on h ask_close = if h.helper && not h.asked then some (record h { asked = true }) else none
act_on h (terminate_process process) = if h.helper then none else some h
act_on h _ = some h

unfoldable pub use_deed : Held → Deed → Option Held
unfolding act_on
use_deed h (load_library name) = if h.library then none else some (record h { library = true })
use_deed h free_library =
    if h.library && not h.hooks then some (record h { library = false }) else none
use_deed h open_channel = if h.channel then none else some (record h { channel = true })
use_deed h (of_process a) = act_on h a
use_deed h (write m) = if h.channel then some h else none
use_deed h set_hooks = if h.library && not h.hooks then some (record h { hooks = true }) else none
use_deed h remove_hooks = if h.library && h.hooks then some (record h { hooks = false }) else none
use_deed h set_parameters = some h
use_deed h exit_windows =
    if h.logged_on && not h.library && not h.hooks && not h.helper
    then some (record h { logged_on = false })
    else none

-- all of them in their order
unfoldable pub use_deeds : Held → List Deed → Option Held
unfolding use_deed
use_deeds h [] = some h
use_deeds h (d ∷ ds) = elim (use_deed h d) [ none ↦ none | some h' ↦ use_deeds h' ds ]

abbrev pub nothing : Held
nothing = record {
  library = false;
  hooks = false;
  channel = false;
  helper = false;
  asked = false;
  logged_on = true;
}

pub use_deeds-append :
    (h k : Held) (ds es : List Deed)
    → use_deeds h ds ≡ some k
    → use_deeds h (ds ++ es) ≡ use_deeds k es
unfolding use_deeds
use_deeds-append h k [] es e = cc e
use_deeds-append h k (d ∷ ds) es e = elim (Option-cases (use_deed h d)) [
  | inl gone ↦ absurd (cc (rw (use_deeds, gone) at e))
  | inr (h', same) ↦ rw (use_deeds, same) (use_deeds-append h' k ds es (rw (use_deeds, same) at e))
]

use_deeds-boxes :
    (h : Held) (text : Option (List ℕ)) (ds : List Deed)
    → use_deeds h (of_process (box text) ∷ ds) ≡ use_deeds h ds
unfolding use_deeds use_deed act_on
use_deeds-boxes h text ds = refl

use_deeds-notices :
    (h : Held) (ms : List Notice) (ds : List Deed)
    → use_deeds (record h { channel = true }) (map write ms ++ ds)
      ≡ use_deeds (record h { channel = true }) ds
unfolding use_deeds use_deed
use_deeds-notices h [] ds = refl
use_deeds-notices h (m ∷ ms) ds = use_deeds-notices h ms ds

-- the helper may run
abbrev pub loaded : Held
loaded = record nothing { library = true }

abbrev pub opened : Bool → Held
opened helper = record loaded { channel = true; helper = helper }

abbrev pub has : Option ℕ → Bool
has none = false
has (some process) = true

pub use_deeds-launch_helper :
    (converts : Bytes → List ℕ) (a : Architecture) (created : Option ℕ) (idle : Idle)
    → use_deeds (opened false) (map of_process (launch_helper converts a created idle).0)
      ≡ some (opened (has (launch_helper converts a created idle).1))
unfolding use_deeds use_deed act_on launch_helper launch_app complain show_failure check_idle
use_deeds-launch_helper converts intel created idle = refl
use_deeds-launch_helper converts unsupported created idle = refl
use_deeds-launch_helper converts amd64 none ready = refl
use_deeds-launch_helper converts amd64 none late = refl
use_deeds-launch_helper converts amd64 none failed = refl
use_deeds-launch_helper converts amd64 (some p) ready = refl
use_deeds-launch_helper converts amd64 (some p) late = refl
use_deeds-launch_helper converts amd64 (some p) failed = refl

-- The helper has been waited for.
abbrev pub stopped : Bool → Held
stopped asked = record (opened false) { asked = asked }

use_deeds-kill_15_9 :
    (process : ℕ) (window : Bool) (w : Wait) (terminated : Bool)
    → use_deeds (opened true) (map of_process (kill_15_9 process window w terminated))
      ≡ some (stopped window)
unfolding use_deeds use_deed act_on kill_15_9 stop_waiting
use_deeds-kill_15_9 process true ended terminated = refl
use_deeds-kill_15_9 process false ended terminated = refl
use_deeds-kill_15_9 process true timeout true = refl
use_deeds-kill_15_9 process false timeout true = refl
use_deeds-kill_15_9 process true timeout false = refl
use_deeds-kill_15_9 process false timeout false = refl
use_deeds-kill_15_9 process true wait_failed terminated = refl
use_deeds-kill_15_9 process false wait_failed terminated = refl

use_deeds-stop_helper :
    (a : Answers) (helper : Option ℕ)
    → use_deeds (opened (has helper)) (stop_helper a helper)
      ≡ some (stopped (has helper && a.window))
unfolding stop_helper use_deeds
use_deeds-stop_helper a none = refl
use_deeds-stop_helper a (some p) = use_deeds-kill_15_9 p a.window a.wait a.terminated

-- after the log-off
abbrev pub gone : Bool → Bool → Held
gone channel asked = record nothing { channel = channel; asked = asked; logged_on = false }

pub use_deeds-finish :
    (a : Answers) (helper : Option ℕ)
    → use_deeds (record (opened (has helper)) { hooks = true }) (finish a helper).deeds
      ≡ some (gone true (has helper && a.window))
unfolding use_deeds use_deed finish close_hookdll log_off
use_deeds-finish a helper =
    use_deeds-append (opened (has helper)) (stopped (has helper && a.window)) (stop_helper a helper)
      _ (use_deeds-stop_helper a helper)

pub use_deeds-serving :
    (helper : Option ℕ) (launching : List Act) (m : Notice) (ms : List Notice) (rest : List Deed)
    → use_deeds (opened false) (map of_process launching) ≡ some (opened (has helper))
    → use_deeds loaded (
        (open_channel ∷ map of_process launching)
        ++ ((write m ∷ set_hooks ∷ set_parameters ∷ map write ms) ++ rest))
      ≡ use_deeds (record (opened (has helper)) { hooks = true }) rest
unfolding use_deeds use_deed
use_deeds-serving helper launching m ms rest h =
    use_deeds-append (opened false) (opened (has helper)) (map of_process launching) _ h
    ∙ use_deeds-notices (record (opened (has helper)) { hooks = true }) ms rest
