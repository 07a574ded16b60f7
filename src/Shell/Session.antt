-- ===== src/Shell/Session.antt =====
-- The life of a session in ServerExe/main.c: `build_startup_procs`, `should_terminate` and the loop of
-- `WinMain`. What Windows reports (processes, connection, desktop, time) comes with each round.
pub mod Known
pub mod Terminate
pub mod Rounds
mod Tests
use Prim.Native.Nat.{bit_or}
use seamlessrdp.Base.{
  ℕ, ◌+◌, ◌-◌, Bool, true, false, not, ◌&&◌, ◌||◌, List, [], ◌∷◌, ◌++◌, Option, none, some, Bytes,
  ltb, leb, ◌==◌, if◌then◌else◌,
}
use seamlessrdp.Base.Int.{ℤ, pos, negsuc, is_negative, eq_ℤ, ◌-ℤ◌}
use seamlessrdp.Shell.Command.{Call, persistent}

-- an entry of WTS_PROCESS_INFO
pub record Process : Type 0 where
  pub session_id : ℕ
  pub process_id : ℕ
  pub name : Bytes

-- The global data, without the functions of the hook library.
pub record Session : Type 0 where
  pub session_id : ℕ
  pub startup_procs : List ℕ
  pub system_procs : List Bytes
  pub connected : Bool
  pub desktop_hidden : Bool
  pub disconnect_ts : ℕ
  pub persistent_mode : ℤ

-- SESSION_TIMEOUT
abbrev pub session_timeout : ℕ
session_timeout = 60

abbrev pub is_set : ℤ → Bool
is_set n = not (eq_ℤ n (pos 0))

-- the ids of the session's processes; the two loops count them and copy them
unfoldable pub startup_ids : ℕ → List Process → List ℕ
startup_ids id [] = []
startup_ids id (p ∷ ps) =
    if not (p.session_id == id) then startup_ids id ps else p.process_id ∷ startup_ids id ps

-- `none` is the failure of WTSEnumerateProcesses
unfoldable pub build_startup_procs : Option (List Process) → Session → Bool × Session
unfolding startup_ids
build_startup_procs none s = (false, s)
build_startup_procs (some ps) s = (true, record s { startup_procs = startup_ids s.session_id ps })

unfoldable pub to_lower : ℕ → ℕ
to_lower c = if leb b'A' c && leb c b'Z' then c + 32 else c

-- `0 == _stricmp(a, b)`
unfoldable pub equal_nocase : Bytes → Bytes → Bool
equal_nocase [] [] = true
equal_nocase (a ∷ s) (b ∷ t) = to_lower a == to_lower b && equal_nocase s t
equal_nocase _ _ = false

unfoldable pub is_system : List Bytes → Bytes → Bool
is_system [] name = false
is_system (s ∷ ss) name = equal_nocase name s || is_system ss name

unfoldable pub is_startup : List ℕ → ℕ → Bool
is_startup [] id = false
is_startup (i ∷ is) id = id == i || is_startup is id

-- the loop over the processes: true if it comes to its end
unfoldable pub only_known : Session → List Process → Bool
only_known s [] = true
only_known s (p ∷ ps) =
    if not (p.session_id == s.session_id)
    then only_known s ps
    else if is_system s.system_procs p.name
    then only_known s ps
    else if is_startup s.startup_procs p.process_id
    then only_known s ps
    else false

-- `mbox_cnt` is `g_mbox_cnt`, the number of message boxes on the screen.
unfoldable pub should_terminate : ℕ → ℕ → Option (List Process) → Session → Bool
should_terminate now mbox_cnt procs s =
    if not s.connected && is_set s.persistent_mode
    then (if s.disconnect_ts == 0
        then false
        else if ltb (now - s.disconnect_ts) session_timeout
        then false
        else true)
    else if is_set s.persistent_mode
    then false
    else if not (mbox_cnt == 0)
    then false
    else elim procs [ none ↦ true | some ps ↦ only_known s ps ]

-- The messages of `WinMain`: HELLO with its flags, HIDE and UNHIDE.
pub data Notice : Type 0 where
  hello : ℕ → Notice
  hide : Notice
  unhide : Notice

-- SEAMLESS_HELLO_RECONNECT and SEAMLESS_HELLO_HIDDEN
abbrev pub hello_reconnect : ℕ
hello_reconnect = 1

abbrev pub hello_hidden : ℕ
hello_hidden = 2

-- What Windows answers in one round: to `should_terminate` the time, the number of message boxes and
-- the processes; to the body `is_connected`, the time and `is_desktop_hidden`. `calls` are the
-- commands of `process_cmds`.
pub record Round : Type 0 where
  pub connected : Bool
  pub tested_at : ℕ
  pub now : ℕ
  pub hidden : Bool
  pub mbox_cnt : ℕ
  pub procs : Option (List Process)
  pub calls : List Call

-- "connected && !ts" and its counterpart
unfoldable pub track_connection : Bool → ℕ → ℕ → ℕ
track_connection connected now ts =
    let ts' = if not connected && ts == 0 then now else ts in
    if connected && not (ts' == 0) then 0 else ts'

unfoldable pub reconnect : Session → Session × List Notice
reconnect s =
    let flags = if s.desktop_hidden then bit_or hello_reconnect hello_hidden else hello_reconnect in
    (record s { persistent_mode = pos 1 }, hello flags ∷ [])

unfoldable pub check_desktop : Bool → Session → Session × List Notice
check_desktop hidden s = (
  record s { desktop_hidden = hidden },
  if hidden && not s.desktop_hidden
      then hide ∷ []
      else if not hidden && s.desktop_hidden
      then unhide ∷ []
      else [],
)

-- `do_persistent`, for the commands of one `process_cmds`
unfoldable pub apply_calls : List Call → Session → Session
apply_calls [] s = s
apply_calls (persistent serial enable ∷ cs) s =
    apply_calls cs (record s { persistent_mode = enable })
apply_calls (_ ∷ cs) s = apply_calls cs s

-- "connected && !g_connected"
unfoldable pub greet : Bool → Session → Session × List Notice
unfolding reconnect
greet connected s = if connected && not s.connected then reconnect s else (s, [])

-- "check_counter < 0"
unfoldable pub survey : Bool → ℤ → Session → Session × List Notice
unfolding check_desktop
survey hidden counter s = if is_negative counter then check_desktop hidden s else (s, [])

-- The body of the loop, with the value of `check_counter` that its test has left.
unfoldable pub body : Round → ℤ → Session → (ℤ × Session) × List Notice
body r counter s =
    let s1 = record s { disconnect_ts = track_connection r.connected r.now s.disconnect_ts } in
    let (s2, greeting) = greet r.connected s1 in
    let s3 = record s2 { connected = r.connected } in
    let (s4, change) = survey r.hidden counter s3 in
    let counter' = if is_negative counter then pos 5 else counter in
    ((counter', apply_calls r.calls s4), greeting ++ change)

-- The loop, for the rounds given. The flag tells whether the loop has ended by its test.
unfoldable pub session_loop : List Round → ℤ → Session → Bool × Session × List Notice
session_loop [] counter s = (false, s, [])
session_loop (r ∷ rs) counter s =
    let ((counter', s'), out) = body r (counter -ℤ pos 1) s in
    let (ended, last, rest) = session_loop rs counter' s' in
    if eq_ℤ counter (pos 0) && should_terminate r.tested_at r.mbox_cnt r.procs s
    then (true, s, [])
    else (ended, last, out ++ rest)
