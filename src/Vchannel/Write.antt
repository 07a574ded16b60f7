-- ===== src/Vchannel/Write.antt =====
-- `vchannel_write` of ServerExe/vchannel.c, run by every hooked process and by the shell itself.
pub mod Wait
pub mod Lock
mod Tests
use seamlessrdp.Base.{
  ℕ, ◌+◌, ◌-◌, Bool, true, false, not, ◌&&◌, List, [], ◌∷◌, Bytes, ltb, ◌==◌, if◌then◌else◌, length,
}
use seamlessrdp.Vchannel.Buffer.{Buffer, max_line, has_room}
use seamlessrdp.Vchannel.Message.{Message, message_size, store}

-- The globals of a process: `shell` is `g_seamless_shell`, the others tell which handles are not
-- NULL. `held` counts the times that the process has taken `g_mutex` and not released it.
pub record Client : Type 0 where
  pub shell : Bool
  pub mutex : Bool
  pub map_file : Bool
  pub buffer : Bool
  pub evrd : Bool
  pub evwr : Bool
  pub held : ℕ

-- which of the objects that the shell creates can be opened
pub record Opens : Type 0 where
  pub mutex : Bool
  pub map_file : Bool
  pub view : Bool
  pub evrd : Bool
  pub evwr : Bool

abbrev pub give_up : Client → Client
give_up c = record c { shell = false }

-- the setup branch, an object at a time; the flag tells whether the write goes on
unfoldable pub open_evwr : Opens → Client → Bool × Client
open_evwr o c =
    let c' = record c { evwr = o.evwr } in if o.evwr then (true, c') else (false, give_up c')

unfoldable pub open_evrd : Opens → Client → Bool × Client
open_evrd o c =
    let c' = record c { evrd = o.evrd } in if o.evrd then open_evwr o c' else (false, give_up c')

unfoldable pub open_view : Opens → Client → Bool × Client
open_view o c =
    let c' = record c { buffer = o.view } in if o.view then open_evrd o c' else (false, give_up c')

unfoldable pub open_map_file : Opens → Client → Bool × Client
open_map_file o c =
    let c' = record c { map_file = o.map_file } in
    if o.map_file then open_view o c' else (false, give_up c')

unfoldable pub open_mutex : Opens → Client → Bool × Client
open_mutex o c =
    let c' = record c { mutex = o.mutex } in
    if o.mutex then open_map_file o c' else (false, give_up c')

abbrev pub is_connected : Client → Bool
is_connected c = c.buffer && c.mutex && c.evwr && c.evrd

unfoldable pub connect : Opens → Client → Bool × Client
unfolding open_mutex open_map_file open_view open_evrd open_evwr
connect o c = if is_connected c then (true, c) else open_mutex o c

-- The answer of a wait for the mutex: WAIT_OBJECT_0; WAIT_ABANDONED, by which the process owns the
-- mutex as well, after an owner that has ended without a release; or a failure or timeout.
pub data LockAnswer : Type 0 where
  granted : LockAnswer
  abandoned : LockAnswer
  refused : LockAnswer

-- What one round of the wait loop meets: the answer of the wait for the mutex, the buffer as the other
-- processes have left it, whether the wait for the read event is granted, and whether the process
-- owns the mutex after the wait for it that follows when it is not.
pub record Turn : Type 0 where
  pub locked : LockAnswer
  pub seen : Buffer
  pub event : Bool
  pub relocked : Bool

-- `stored b` is the return value 0, with the shared buffer then. `failed` is -1. `aborted` is the
-- failed assertion. `unterminated` is the `strlen` of an array with no NUL. `waiting` means that
-- the turns were not enough: the process still waits.
pub data Result : Type 0 where
  stored : Buffer → Result
  failed : Result
  aborted : Result
  unterminated : Result
  waiting : Result

abbrev pub take_lock : Client → Client
take_lock c = record c { held = c.held + 1 }

-- releasing what is not held does nothing
abbrev pub release_lock : Client → Client
release_lock c = record c { held = c.held - 1 }

-- the wait loop, and the copying behind it
unfoldable pub wait_and_store : List Turn → Client → Message → Result × Client
wait_and_store [] c m = (waiting, c)
wait_and_store (t ∷ ts) c m =
    let rest = wait_and_store ts c m in
    elim t.locked [
      | refused ↦ (failed, give_up c)
      | abandoned ↦ (failed, give_up (take_lock c))
      | granted ↦
          if has_room t.seen (message_size m)
          then (stored (store t.seen m), release_lock (take_lock c))
          else if t.event
          then rest
          else (failed, release_lock (give_up (if t.relocked then take_lock c else c)))
    ]

-- The call whose format and arguments make up `text`. `_vsnprintf` writes at most `max_line` bytes:
-- a shorter text gets its NUL, one of that length gets none, and a longer one returns -1.
unfoldable pub write : Opens → List Turn → Client → Bytes → Bytes → Result × Client
write o ts c command text =
    if not c.shell
    then (failed, c)
    else let (ready, c') = connect o c in
      if not ready
      then (failed, c')
      else if length text == 0
      then (aborted, c')
      else if ltb max_line (length text)
      then (aborted, c')
      else if length text == max_line
      then (unterminated, c')
      else wait_and_store ts c' (record { command = command; args = text })
