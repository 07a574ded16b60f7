-- ===== src/Hook/State.antt =====
-- `cbt_hook_proc` and `SafeSetState` of ServerExe/hookdll.c: windows that are minimized, maximized and
-- restored.
pub mod Acked
use seamlessrdp.Base.{
  ℕ, Bool, true, false, not, ◌&&◌, ◌||◌, List, [], ◌∷◌, ◌++◌, Option, none, some, codes, ◌==◌,
  if◌then◌else◌,
}
use seamlessrdp.Base.Int.{ℤ, pos, negsuc, eq_ℤ}
use seamlessrdp.Vchannel.Serial.{decimal}
use seamlessrdp.Vchannel.Format.{print_int}
use seamlessrdp.Shared.{hwnd_to_long, long_to_hwnd}
use seamlessrdp.Hook.{Style, Msg, state, ack, debug, Blocks}

-- SW_SHOWNORMAL (and SW_NORMAL), SW_SHOWMINIMIZED, SW_MAXIMIZE (and SW_SHOWMAXIMIZED), SW_MINIMIZE and
-- SW_RESTORE
abbrev sw_normal : ℕ
sw_normal = 1

abbrev sw_show_minimized : ℕ
sw_show_minimized = 2

abbrev pub sw_maximize : ℕ
sw_maximize = 3

abbrev pub sw_minimize : ℕ
sw_minimize = 6

abbrev pub sw_restore : ℕ
sw_restore = 9

unfoldable pub shown_state : ℕ → Option ℤ
shown_state show =
    if show == sw_normal || show == sw_restore
    then some (pos 0)
    else if show == sw_minimize || show == sw_show_minimized
    then some (pos 1)
    else if show == sw_maximize
    then some (pos 2)
    else none

-- the case HCBT_MINMAX; `show` is `LOWORD(lparam)`
unfoldable pub min_max : Blocks → ℕ → Style → ℕ → List Msg
unfolding shown_state
min_max sh hwnd style show = if not style.visible then [] else elim (shown_state show) [
  | none ↦ debug (codes "Unexpected show: " ++ decimal show) ∷ []
  | some s ↦
      if long_to_hwnd sh.blocked_state_hwnd == hwnd && eq_ℤ sh.blocked_state s
      then ack sh.blocked_state_serial ∷ []
      else state (hwnd_to_long hwnd) s ∷ []
]

-- HCBT_MINMAX
abbrev pub hcbt_min_max : ℤ
hcbt_min_max = pos 1

unfoldable pub cbt_hook_proc : Bool → Blocks → ℤ → ℕ → Style → ℕ → List Msg
cbt_hook_proc initialized sh code hwnd style show =
    if not initialized
    then []
    else if eq_ℤ code hcbt_min_max
    then min_max sh hwnd style show
    else []

-- the state that a style stands for
unfoldable pub current_state : Style → ℤ
current_state style = if style.maximize then pos 2 else if style.minimize then pos 1 else pos 0

-- the argument of `ShowWindow`
unfoldable pub show_command : ℤ → Option ℕ
show_command s =
    if eq_ℤ s (pos 0)
    then some sw_restore
    else if eq_ℤ s (pos 1)
    then some sw_minimize
    else if eq_ℤ s (pos 2)
    then some sw_maximize
    else none

-- A run of a hook inside `ShowWindow`: of `cbt_hook_proc`, with the style that it meets and the command;
-- or of one of the window hooks, as what it writes with `shared_variables` as they are then.
pub data Shown : Type 0 where
  min_maxed : Style → ℕ → Shown
  hooked : (Blocks → List Msg) → Shown

unfoldable pub min_maxes : Blocks → ℕ → List Shown → List Msg
unfolding min_max
min_maxes sh hwnd [] = []
min_maxes sh hwnd (min_maxed style show ∷ ws) = min_max sh hwnd style show ++ min_maxes sh hwnd ws
min_maxes sh hwnd (hooked writes ∷ ws) = writes sh ++ min_maxes sh hwnd ws

abbrev pub block_states : Blocks → ℕ → ℕ → ℤ → Blocks
block_states sh serial hwnd s = record sh {
  blocked_state_hwnd = hwnd_to_long hwnd;
  blocked_state_serial = serial;
  blocked_state = s;
}

abbrev pub unblock_states : Blocks → Blocks
unblock_states sh = record sh { blocked_state_hwnd = 0; blocked_state = negsuc 0 }

-- `responds` tells the runs of hooks that `ShowWindow` makes with a command.
unfoldable pub safe_set_state :
    Bool → Blocks → ℕ → ℕ → ℤ → Style → (ℕ → List Shown) → List Msg × Blocks
safe_set_state initialized sh serial hwnd s style responds =
    let blocked = block_states sh serial hwnd s in
    if not initialized
    then ([], sh)
    else if eq_ℤ s (current_state style)
    then (ack serial ∷ [], sh)
    else elim (show_command s) [
      | none ↦ (
        debug (codes "Invalid state " ++ (print_int s ++ codes " sent.")) ∷ [],
        unblock_states blocked,
      )
      | some show ↦ (min_maxes blocked hwnd (responds show), unblock_states blocked)
    ]
