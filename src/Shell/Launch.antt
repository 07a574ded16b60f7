-- ===== src/Shell/Launch.antt =====
-- Applications and message boxes in ServerExe/main.c: `utf8_to_utf16`, `launch_app`, `launch_appW`,
-- `do_spawn`, `launch_helper` and `kill_15_9`. What Windows answers are arguments.
pub mod Told
mod Tests
use seamlessrdp.Base.{
  ℕ, ◌*◌, Bool, true, false, List, [], ◌∷◌, ◌++◌, Option, none, some, Bytes, codes, ltb, ◌==◌,
  if◌then◌else◌, length, take,
}

-- The calls that leave the file, in their order. A text is a list of 16-bit units, and `none` is NULL.
pub data Act : Type 0 where
  -- `messageW`
  box : Option (List ℕ) → Act
  -- `CreateProcess` with a text of bytes, `CreateProcessW` with one of units
  create_process : Bytes → Act
  create_process_w : List ℕ → Act
  -- the handle of an application that runs
  launched : ℕ → Act
  wait_idle : ℕ → Act
  -- WM_CLOSE for the window of a process, the wait for its end, and `TerminateProcess`
  ask_close : Act
  wait_process : ℕ → Act
  terminate_process : ℕ → Act

-- 0 and the units, or 1. `converts` is `MultiByteToWideChar` for UTF-8: the units of a text with that
-- of its NUL, or none.
unfoldable pub utf8_to_utf16 : (Bytes → List ℕ) → Bytes → ℕ × Option (List ℕ)
utf8_to_utf16 converts input =
    let size = length (converts input) * 2 in
    if size == 0 then (1, none) else (0, some (converts input))

-- `created` is the process that was created, if any.
unfoldable pub launch_app : Option ℕ → Bytes → List Act × Option ℕ
launch_app none cmdline = (create_process cmdline ∷ [], none)
launch_app (some process) cmdline = (create_process cmdline ∷ launched process ∷ [], some process)

unfoldable pub launch_app_w : Option ℕ → List ℕ → List Act × Option ℕ
launch_app_w none cmdline = (create_process_w cmdline ∷ [], none)
launch_app_w (some process) cmdline =
    (create_process_w cmdline ∷ launched process ∷ [], some process)

abbrev pub unable : Bytes
unable = codes "Unable to launch the requested application:\n"

-- The text in `msg`, an array of 256 bytes: a text that fills it has no NUL, and is read on into
-- `behind`, the bytes behind the array up to a NUL.
unfoldable pub failure_text : Bytes → Bytes → Bytes
failure_text behind cmd =
    let text = unable ++ cmd in if ltb (length text) 256 then text else take 256 text ++ behind

unfoldable pub show_failure : (Bytes → List ℕ) → Bytes → Bytes → List Act
unfolding failure_text utf8_to_utf16
show_failure converts behind cmd = box (utf8_to_utf16 converts (failure_text behind cmd)).1 ∷ []

abbrev pub invalid_unicode : List ℕ
invalid_unicode = codes "Failed to launch application due to invalid unicode in command line."

unfoldable pub do_spawn : (Bytes → List ℕ) → Option ℕ → Bytes → Bytes → List Act
unfolding utf8_to_utf16 launch_app_w
do_spawn converts created behind cmd = elim (utf8_to_utf16 converts cmd).1 [
  | none ↦ box (some invalid_unicode) ∷ []
  | some wcmd ↦
      let (acts, app) = launch_app_w created wcmd in
      elim app [ none ↦ acts ++ show_failure converts behind cmd | some process ↦ acts ]
]

-- wProcessorArchitecture
pub data Architecture : Type 0 where
  intel : Architecture
  amd64 : Architecture
  unsupported : Architecture

-- the result of `WaitForInputIdle`: 0, WAIT_TIMEOUT or WAIT_FAILED
pub data Idle : Type 0 where
  ready : Idle
  late : Idle
  failed : Idle

abbrev not_started : List ℕ
not_started = codes "Hooking helper failed to start within time limit"

unfoldable pub check_idle : Idle → List Act
check_idle ready = []
check_idle late = box (some not_started) ∷ []
check_idle failed = box (some not_started) ∷ []

abbrev pub helper_name : Bytes
helper_name = codes "seamlessrdphook32.exe"

abbrev process_or_null : Option ℕ → ℕ
process_or_null app = elim app [ none ↦ 0 | some process ↦ process ]

unfoldable pub complain : (Bytes → List ℕ) → Option ℕ → List Act
complain converts none = show_failure converts [] helper_name
complain converts (some process) = []

unfoldable pub launch_helper :
    (Bytes → List ℕ) → Architecture → Option ℕ → Idle → List Act × Option ℕ
unfolding launch_app complain show_failure check_idle
launch_helper converts amd64 created idle =
    let (acts, app) = launch_app created helper_name in
    (acts ++ (complain converts app ++ (wait_idle (process_or_null app) ∷ check_idle idle)), app)
launch_helper converts _ created idle = ([], none)

-- the result of `WaitForSingleObject`: WAIT_OBJECT_0 or WAIT_ABANDONED, WAIT_TIMEOUT, WAIT_FAILED
pub data Wait : Type 0 where
  ended : Wait
  timeout : Wait
  wait_failed : Wait

-- `terminated` is the result of `TerminateProcess`.
unfoldable pub stop_waiting : ℕ → Wait → Bool → List Act
stop_waiting process ended terminated = []
stop_waiting process timeout true = terminate_process process ∷ []
stop_waiting process timeout false =
    terminate_process process ∷ box (some (codes "Unable to terminate process")) ∷ []
stop_waiting process wait_failed terminated = box (some (codes "Unable to wait for process")) ∷ []

-- `window` tells whether `FindWindowEx` finds the window of the process.
unfoldable pub kill_15_9 : ℕ → Bool → Wait → Bool → List Act
unfolding stop_waiting
kill_15_9 process window wait terminated =
    (if window then ask_close ∷ [] else [])
    ++ (wait_process process ∷ stop_waiting process wait terminated)
