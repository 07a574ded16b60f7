-- ===== src/Helper.antt =====
-- ServerExe/seamlessrdphook.c: the helper process that hooks the applications of the other word size.
pub mod Pump
mod Tests
use seamlessrdp.Base.{
  ℕ, Bool, true, false, not, ◌||◌, List, [], ◌∷◌, ◌++◌, Option, none, some, Bytes, codes,
  if◌then◌else◌,
}
use seamlessrdp.Base.Int.{ℤ, pos}
use seamlessrdp.Shell.Launch.{Architecture, intel, amd64, unsupported}
use seamlessrdp.Shell.Main.{library_name}

-- What a call of `GetMessage` gives: a message, 0 for WM_QUIT, or -1.
pub data Got : Type 0 where
  some_message : ℕ → Got
  quit : Got
  failure : Got

-- what Windows answers; `got` are the results of `GetMessage` so far
pub record Found : Type 0 where
  pub architecture : Architecture
  pub loads : Bool
  pub set_hooks : Bool
  pub get_instance_count : Bool
  pub got : List Got

-- What the helper does, in its order; `dispatch` stands for TranslateMessage and DispatchMessage.
pub data Chore : Type 0 where
  message : Bytes → Chore
  set_hooks : Chore
  create_window : Chore
  dispatch : ℕ → Chore
  free_library : Chore

-- `result` is none while the loop waits for a message.
pub record Work : Type 0 where
  pub calls : List Chore
  pub result : Option ℕ

abbrev pub then_work : List Chore → Work → Work
then_work cs w = record { calls = cs ++ w.calls; result = w.result }

-- "close_hookdll"
unfoldable pub close_hookdll : Work
close_hookdll = record { calls = free_library ∷ []; result = some 0 }

-- the loop and what is behind it
unfoldable pub message_loop : List Got → Work
unfolding close_hookdll
message_loop [] = record { calls = []; result = none }
message_loop (some_message m ∷ got) = then_work (dispatch m ∷ []) (message_loop got)
message_loop (quit ∷ got) = close_hookdll
message_loop (failure ∷ got) = then_work (message (codes "GetMessage failed") ∷ []) close_hookdll

unfoldable pub with_hookdll : Found → Work
unfolding message_loop
with_hookdll f =
    if not f.set_hooks || not f.get_instance_count
    then then_work
        (message (codes "Hook DLL doesn't contain the correct functions. Unable to continue.") ∷ [])
        close_hookdll
    else then_work (set_hooks ∷ create_window ∷ []) (message_loop f.got)

abbrev pub no_hookdll : Work
no_hookdll = record {
  calls = message (codes "Could not load hook DLL. Unable to continue.") ∷ [];
  result = some 1;
}

unfoldable pub win_main : Found → Work
unfolding with_hookdll
win_main f = elim (library_name f.architecture) [
  | none ↦ then_work (message (codes "Unsupported processor architecture.") ∷ []) no_hookdll
  | some name ↦ if not f.loads then no_hookdll else with_hookdll f
]
