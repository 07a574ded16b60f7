-- ===== src/Shell/Main.antt =====
-- `WinMain` of ServerExe/main.c around its loop, with `build_system_procs`, `is_connected` and
-- `is_desktop_hidden`. What Windows answers before the loop and behind it is a record.
pub mod Held
pub mod Released
pub mod Welcome
mod Tests
use seamlessrdp.Base.{
  ℕ, zero, suc, ◌-◌, Bool, true, false, not, ◌&&◌, ◌||◌, List, [], ◌∷◌, ◌++◌, Option, none, some,
  Bytes, codes, ◌==◌, if◌then◌else◌, length, map,
}
use seamlessrdp.Base.Int.{ℤ, pos, negsuc, eq_ℤ}
use seamlessrdp.Shell.Session.{
  Process, Session, build_startup_procs, Notice, hello, hello_hidden, Round, session_loop,
}
use seamlessrdp.Shell.Launch.{
  Act, box, Architecture, intel, amd64, unsupported, Idle, launch_helper, Wait, kill_15_9,
}

-- The key `SysProcs`: its number of values, and their names; the name is empty where it cannot be read.
pub record SysProcs : Type 0 where
  pub count : ℕ
  pub value : ℕ → Bytes

-- the names of `left` values from number `j` on
unfoldable pub read_values : (ℕ → Bytes) → ℕ → ℕ → List Bytes
read_values value zero j = []
read_values value (suc left) j = value j ∷ read_values value left (suc j)

abbrev pub default_procs : List Bytes
default_procs = codes "ieuser.exe" ∷ codes "ctfmon.exe" ∷ []

-- `none` is a failure of `RegOpenKeyEx`.
unfoldable pub build_system_procs : Option SysProcs → List Bytes
unfolding read_values
build_system_procs none = default_procs
build_system_procs (some key) =
    if key.count == 0 then default_procs else read_values key.value key.count 0

-- The answer of `WTSQuerySessionInformation`; WTSActive is 0.
unfoldable pub is_connected : Option ℕ → Bool
is_connected none = true
is_connected (some connect_state) = connect_state == 0

-- whether `OpenInputDesktop` succeeds
unfoldable pub is_desktop_hidden : Bool → Bool
is_desktop_hidden opens = not opens

-- which functions `GetProcAddress` finds
pub record Exports : Type 0 where
  pub set_hooks : Bool
  pub remove_hooks : Bool
  pub get_instance_count : Bool
  pub safe_move_window : Bool
  pub safe_zchange : Bool
  pub safe_focus : Bool
  pub safe_set_state : Bool

unfoldable pub lacks_function : Exports → Bool
lacks_function e =
    not e.set_hooks
    || not e.remove_hooks
    || not e.get_instance_count
    || not e.safe_move_window
    || not e.safe_zchange
    || not e.safe_focus
    || not e.safe_set_state

-- what Windows and the library answer
pub record Answers : Type 0 where
  pub cmdline : Bytes
  pub architecture : Architecture
  pub loads : Bool
  pub exports : Exports
  pub instance_count : ℤ
  pub converts : Bytes → List ℕ
  pub helper : Option ℕ
  pub idle : Idle
  pub session_id : ℕ
  pub procs : Option (List Process)
  pub sys_procs : Option SysProcs
  pub connect_state : Option ℕ
  pub desktop_opens : Bool
  pub window : Bool
  pub wait : Wait
  pub terminated : Bool

-- What `WinMain` does, in its order: `load_library` for a library that is loaded, `of_process` for
-- boxes and processes; `set_parameters` are the
-- three calls of `SystemParametersInfo`, and `write` is a call of `vchannel_write`.
pub data Deed : Type 0 where
  load_library : Bytes → Deed
  free_library : Deed
  open_channel : Deed
  of_process : Act → Deed
  write : Notice → Deed
  set_hooks : Deed
  remove_hooks : Deed
  set_parameters : Deed
  exit_windows : Deed

-- `result` is none while the loop runs.
pub record Run : Type 0 where
  pub deeds : List Deed
  pub result : Option ℤ

abbrev pub say : Bytes → Deed
say text = of_process (box (some text))

-- the names of the libraries
unfoldable pub library_name : Architecture → Option Bytes
library_name intel = some (codes "seamlessrdp32.dll")
library_name amd64 = some (codes "seamlessrdp64.dll")
library_name unsupported = none

-- "bail_out"
unfoldable pub log_off : Bool → Run
log_off success = record {
  deeds = exit_windows ∷ [];
  result = some (if success then pos 1 else negsuc 0);
}

-- deeds in front of a run
abbrev pub after : List Deed → Run → Run
after ds r = record { deeds = ds ++ r.deeds; result = r.result }

-- "close_hookdll"
unfoldable pub close_hookdll : Bool → Run
unfolding log_off
close_hookdll success = after (free_library ∷ []) (log_off success)

-- `if (helper)`
unfoldable pub stop_helper : Answers → Option ℕ → List Deed
stop_helper a none = []
stop_helper a (some process) = map of_process (kill_15_9 process a.window a.wait a.terminated)

-- behind the loop
unfoldable pub finish : Answers → Option ℕ → Run
unfolding stop_helper close_hookdll
finish a helper = after (remove_hooks ∷ stop_helper a helper) (close_hookdll true)

-- the globals in front of the loop
unfoldable pub first_session : Answers → Session
first_session a =
    let blank : Session = record {
      session_id = a.session_id;
      startup_procs = [];
      system_procs = [];
      connected = false;
      desktop_hidden = false;
      disconnect_ts = 0;
      persistent_mode = pos 0;
    } in
    record (build_startup_procs a.procs blank).1 {
      system_procs = build_system_procs a.sys_procs;
      connected = is_connected a.connect_state;
      desktop_hidden = is_desktop_hidden a.desktop_opens;
      persistent_mode = pos 1;
    }

unfoldable pub greeting : Session → Notice
greeting s = hello (if s.desktop_hidden then hello_hidden else 0)

-- From `vchannel_open` on, whose result is not used. The loop starts with the counter 5.
unfoldable pub serve : Answers → List Round → Run
unfolding first_session greeting finish
serve a rounds =
    let (launching, helper) = launch_helper a.converts a.architecture a.helper a.idle in
    let s = first_session a in
    let (over, last, notices) = session_loop rounds (pos 5) s in
    after (open_channel ∷ map of_process launching) (
      after (write (greeting s) ∷ set_hooks ∷ set_parameters ∷ map write notices)
        (if over then finish a helper else record { deeds = []; result = none }))

-- the `switch` over the instances of the library
unfoldable pub check_instances : Answers → List Round → Run
unfolding serve
check_instances a rounds =
    if eq_ℤ a.instance_count (pos 0)
    then after (say (codes "Hook DLL failed to initialize.") ∷ []) (close_hookdll false)
    else if eq_ℤ a.instance_count (pos 1)
    then serve a rounds
    else after (say (codes "Another running instance of Seamless RDP detected.") ∷ [])
        (close_hookdll false)

unfoldable pub with_library : Answers → List Round → Run
unfolding check_instances
with_library a rounds =
    if lacks_function a.exports
    then after
        (say (codes "Hook DLL doesn't contain the correct functions. Unable to continue.") ∷ [])
        (close_hookdll false)
    else check_instances a rounds

abbrev no_library : List Deed
no_library = say (codes "Could not load hook DLL. Unable to continue.") ∷ []

-- `loads` is the success of `LoadLibrary`.
unfoldable pub with_name : Bool → Bytes → Answers → List Round → Run
unfolding with_library
with_name false name a rounds = after no_library (log_off false)
with_name true name a rounds = after (load_library name ∷ []) (with_library a rounds)

unfoldable pub win_main : Answers → List Round → Run
unfolding with_name
win_main a rounds =
    if not (length a.cmdline == 0)
    then record {
      deeds = say (codes "Seamless RDP Shell should be started without any arguments.") ∷ [];
      result = some (negsuc 0);
    }
    else elim (library_name a.architecture) [
      | none ↦
          after (say (codes "Unsupported processor architecture.") ∷ no_library) (log_off false)
      | some name ↦ with_name a.loads name a rounds
    ]
