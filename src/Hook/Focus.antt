-- ===== src/Hook/Focus.antt =====
-- `SafeFocus` of ServerExe/hookdll.c.
pub mod Raised
use seamlessrdp.Base.{ℕ, Bool, true, false, List, [], ◌∷◌, ◌++◌, if◌then◌else◌}
use seamlessrdp.Base.Int.{ℤ, pos}
use seamlessrdp.Shared.{hwnd_to_long}
use seamlessrdp.Hook.{Msg, Blocks}
use seamlessrdp.Hook.Order.{Window}
use seamlessrdp.Hook.Window.{Facts}
use seamlessrdp.Hook.Events.{focus_asked, wndprocret_hook_proc}

-- a run of the hook for the message that `SendMessage` sends
pub record Visit : Type 0 where
  pub window : Facts
  pub foreground : ℕ

-- the runs, in their order: the windows brought to the foreground, and the messages
unfoldable pub visits : Blocks → List Visit → List ℕ × List Msg
visits sh [] = ([], [])
visits sh (v ∷ vs) =
    let (raised, out) = wndprocret_hook_proc true (pos 0) sh v.window [] v.foreground focus_asked in
    let (more, rest) = visits sh vs in (if raised then v.window.hwnd ∷ more else more, out ++ rest)

unfoldable pub safe_focus : Bool → Blocks → ℕ → ℕ → List Visit → (List ℕ × List Msg) × Blocks
unfolding visits
safe_focus false sh serial hwnd vs = (([], []), sh)
safe_focus true sh serial hwnd vs =
    let blocked = record sh { blocked_focus_serial = serial; blocked_focus = hwnd_to_long hwnd } in
    (visits blocked vs, record blocked { blocked_focus = 0 })
