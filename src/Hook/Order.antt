-- ===== src/Hook/Order.antt =====
-- `update_zorder` and `SafeZChange` of ServerExe/hookdll.c: the stacking order of windows.
pub mod Behind
use seamlessrdp.Base.{
  ℕ, Bool, true, false, not, ◌&&◌, ◌||◌, List, [], ◌∷◌, ◌++◌, Option, none, some, ◌==◌,
  if◌then◌else◌,
}
use seamlessrdp.Shared.{hwnd_to_long, long_to_hwnd}
use seamlessrdp.Hook.{Style, Msg, zchange, ack, Blocks, create_topmost}

-- A window with its style.
pub record Window : Type 0 where
  pub hwnd : ℕ
  pub style : Style

abbrev pub is_shown_toplevel : Style → Bool
is_shown_toplevel s = (not s.child || s.popup) && s.visible

-- The walk of GetNextWindow(…, GW_HWNDPREV) over the windows above, the nearest first; 0 is NULL.
unfoldable pub window_above : List Window → ℕ
window_above [] = 0
window_above (w ∷ ws) = if is_shown_toplevel w.style then w.hwnd else window_above ws

-- `style` is that of the window itself.
unfoldable pub update_zorder : Blocks → Window → List Window → List Msg
unfolding window_above
update_zorder sh w above =
    let behind = window_above above in
    if w.hwnd == long_to_hwnd sh.blocked_zchange_0 && behind == long_to_hwnd sh.blocked_zchange_1
    then ack sh.blocked_zchange_serial ∷ []
    else zchange (hwnd_to_long w.hwnd) (hwnd_to_long behind)
        (if w.style.topmost then create_topmost else 0)
      ∷ []

-- HWND_TOP
abbrev pub hwnd_top : ℕ
hwnd_top = 0

-- the window that `SafeZChange` passes to SetWindowPos; `behind` is 0 for NULL
unfoldable pub insert_after : Window → Window → ℕ
insert_after w behind =
    if not (behind.hwnd == 0)
    then (if w.style.topmost
        then (if not behind.style.topmost then hwnd_top else behind.hwnd)
        else if behind.style.topmost
        then hwnd_top
        else behind.hwnd)
    else hwnd_top

abbrev pub block_zchanges : Blocks → ℕ → ℕ → ℕ → Blocks
block_zchanges sh serial hwnd behind = record sh {
  blocked_zchange_serial = serial;
  blocked_zchange_0 = hwnd_to_long hwnd;
  blocked_zchange_1 = hwnd_to_long behind;
}

abbrev pub unblock_zchanges : Blocks → Blocks
unblock_zchanges sh = record sh { blocked_zchange_0 = 0; blocked_zchange_1 = 0 }

-- the calls of `update_zorder` for the window: the windows above it, each time
unfoldable pub update_zorders : Blocks → Window → List (List Window) → List Msg
unfolding update_zorder
update_zorders sh w [] = []
update_zorders sh w (above ∷ more) = update_zorder sh w above ++ update_zorders sh w more

-- `responds` tells what the hooks see while `SetWindowPos` puts the window behind another.
unfoldable pub safe_zchange :
    Bool → Blocks → ℕ → Window → Window → (ℕ → List (List Window)) → List Msg × Blocks
unfolding insert_after
safe_zchange false sh serial w behind responds = ([], sh)
safe_zchange true sh serial w behind responds =
    let blocked = block_zchanges sh serial w.hwnd behind.hwnd in
    (update_zorders blocked w (responds (insert_after w behind)), unblock_zchanges blocked)
