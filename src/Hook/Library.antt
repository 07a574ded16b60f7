-- ===== src/Hook/Library.antt =====
-- `SetHooks`, `RemoveHooks`, `GetInstanceCount` and `DllMain` of ServerExe/hookdll.c: the library in a
-- process.
pub mod Count
use seamlessrdp.Base.{
  ℕ, Bool, true, false, not, ◌&&◌, List, [], ◌∷◌, Option, none, some, ◌==◌, if◌then◌else◌,
}
use seamlessrdp.Base.Int.{ℤ, pos, ◌+ℤ◌, ◌-ℤ◌}
use seamlessrdp.Hook.{Msg, destroy_group, Blocks}

-- the three hooks of a process; 0 is NULL
pub record Hooks : Type 0 where
  pub cbt : ℕ
  pub wndproc : ℕ
  pub wndprocret : ℕ

-- the results of `SetWindowsHookEx`
unfoldable pub set_hooks : Hooks → Hooks → Hooks
set_hooks answers h = record {
  cbt = if h.cbt == 0 then answers.cbt else h.cbt;
  wndproc = if h.wndproc == 0 then answers.wndproc else h.wndproc;
  wndprocret = if h.wndprocret == 0 then answers.wndprocret else h.wndprocret;
}

abbrev unhook : ℕ → List ℕ → List ℕ
unhook h rest = if not (h == 0) then h ∷ rest else rest

-- the calls of `UnhookWindowsHookEx`
unfoldable pub remove_hooks : Hooks → List ℕ
remove_hooks h = unhook h.cbt (unhook h.wndproc (unhook h.wndprocret []))

-- The globals of the library: which of `g_mutex` and `g_shdata` are not NULL.
pub record Library : Type 0 where
  pub mutex : Bool
  pub shdata : Bool
  pub initialized : Bool

abbrev pub unloaded : Library
unloaded = record { mutex = false; shdata = false; initialized = false }

-- DLL_PROCESS_ATTACH: the answers of CreateMutex, CreateFileMapping and MapViewOfFile, and the count
unfoldable pub attach : Bool → Bool → Bool → ℤ → Library × ℤ
attach mutex mapping view count =
    let shdata = mapping && view in
    if mutex && (mapping && shdata)
    then (record { mutex = mutex; shdata = shdata; initialized = true }, count +ℤ pos 1)
    else (record { mutex = mutex; shdata = shdata; initialized = false }, count)

-- DLL_PROCESS_DETACH
unfoldable pub detach : ℕ → Library → ℤ → List Msg × ℤ
detach pid l count = (
  destroy_group pid ∷ [],
  if l.mutex then (if l.shdata then count -ℤ pos 1 else count) else count,
)

unfoldable pub get_instance_count : Library → ℤ → ℤ
get_instance_count l count = if not l.initialized then pos 0 else count
