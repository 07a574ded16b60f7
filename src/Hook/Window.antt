-- ===== src/Hook/Window.antt =====
-- `is_toplevel`, `is_menu` and `get_parent` of ServerExe/hookdll.c, and what the hooks ask Windows about
-- a window.
use seamlessrdp.Base.{
  ℕ, ◌-◌, ◌^◌, Bool, not, ◌&&◌, ◌||◌, List, Option, Bytes, codes, ◌==◌, if◌then◌else◌,
}
use seamlessrdp.Shell.Command.{equal}
use seamlessrdp.Shared.Icon.{Extracted}
use seamlessrdp.Hook.{Style}
use seamlessrdp.Hook.Position.{Answers}

-- The answers about one window; 0 is NULL. `class` is the name that the hook asks for, `none` for a
-- failure, and `name` what `get_parent` finds in its array. `title` has the 16-bit units of
-- `GetWindowTextW`; the icons are `none` where `get_icon` finds none.
pub record Facts : Type 0 where
  pub hwnd : ℕ
  pub parent : ℕ
  pub desktop : ℕ
  pub owner : ℕ
  pub style : Style
  pub pid : ℕ
  pub class : Option Bytes
  pub name : Bytes
  pub title : List ℕ
  pub large_icon : Option Extracted
  pub small_icon : Option Extracted
  pub place : Answers

unfoldable pub is_toplevel : Facts → Bool
is_toplevel w = w.parent == 0 || w.parent == w.desktop

unfoldable pub is_menu : Style → Bool
is_menu s = s.toolwindow || s.topmost

-- `(HWND) - 1`
abbrev pub no_window : ℕ
no_window = 2 ^ 64 - 1

unfoldable pub get_parent : Facts → ℕ
get_parent w =
    if w.owner == 0 && not w.style.toolwindow
    then 0
    else if not (w.owner == 0)
    then (if equal w.name (codes "OfficeTooltip") then no_window else w.owner)
    else no_window
