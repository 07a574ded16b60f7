-- ===== src/Shell/Sync/Complete.antt =====
-- A synchronization reports every window that it can reach.
use mathlib.Core.List.{Memᴰ}
use seamlessrdp.Base.{
  ◌≢◌, ap, codes, Bytes, Bool-cases, inl, inr, ℕ, ◌≡◌, refl, true, false, List, Option, none, some,
  if◌then◌else◌, arith,
}
use seamlessrdp.Shared.{hwnd_to_long}
use seamlessrdp.Hook.{Rect, create}
use seamlessrdp.Hook.Events.{is_console}
use seamlessrdp.Shell.Command.{equal}
use seamlessrdp.Shell.Command.Equal.{equal-true}
use seamlessrdp.Shell.Sync.{Listed, sent, parent_of, is_listed, announce, enum_windows, do_sync}
use seamlessrdp.Shell.Sync.Parents.{IsRanked}
use seamlessrdp.Shell.Sync.Met.{Met, met, inside, Sends, Met-Sends, Sends-sync}

-- The parent that a window's owner stands for: none but for a popup.
abbrev pub owner_of : Listed → ℕ
owner_of w = if w.style.popup then w.owner else 0

-- A visible window that is no console and belongs to `parent`.
pub record IsChild (parent : ℕ) (w : Listed) : Type 0 where
  pub visible : w.style.visible ≡ true
  pub windowed : w.class ≢ some (codes "ConsoleWindowClass")
  pub belongs : owner_of w ≡ parent

-- Such a window below `parent`, with the windows between them: all of them are such, and those between
-- have a rectangle.
pub data Below (all : List Listed) : ℕ → Listed → Type 0 where
  child : (parent : ℕ) (w : Listed) → Memᴰ w all → IsChild parent w → Below all parent w
  deeper :
      (parent : ℕ) (v w : Listed) (r : Rect)
      → Memᴰ v all
      → IsChild parent v
      → v.rect ≡ some r
      → Below all v.hwnd w
      → Below all parent w

no_console :
    (class : Option Bytes) → class ≢ some (codes "ConsoleWindowClass") → is_console class ≡ false
no_console none h = refl
no_console (some name) h = elim (Bool-cases (equal name (codes "ConsoleWindowClass"))) [
  | inl same ↦ absurd (h (ap some (equal-true name (codes "ConsoleWindowClass") same)))
  | inr other ↦ other
]

IsChild-is_listed : (parent : ℕ) (w : Listed) → IsChild parent w → is_listed parent w ≡ true
unfolding is_listed parent_of
IsChild-is_listed parent w c = ground (arith, c.visible, no_console w.class c.windowed, c.belongs)

Below-Met : (all : List Listed) (parent : ℕ) (w : Listed) → Below all parent w → Met all parent w
Below-Met all _ _ (child parent w at c) = met parent w at (IsChild-is_listed parent w c)
Below-Met all _ _ (deeper parent v w r at c e below) =
    inside parent v w r at (IsChild-is_listed parent v c) e (Below-Met all v.hwnd w below)

-- Where the windows have no cycle of parents, a synchronization sends the CREATE of every window that
-- is visible, no console and, as far as it is a popup, owned by NULL or by a window that is so too and
-- has a rectangle: with its process, its owner and whether it has a modal frame.
pub Sends-do_sync :
    (rank : ℕ → ℕ) (all : List Listed) (w : Listed)
    → IsRanked rank all
    → Below all 0 w
    → Sends
        (sent (
          create
            (hwnd_to_long w.hwnd)
            w.pid
            (hwnd_to_long (owner_of w))
            (if w.style.modalframe then 1 else 0)))
        (do_sync (rank 0) all)
unfolding do_sync announce parent_of
Sends-do_sync rank all w ranked below =
    Sends-sync (announce w) (enum_windows (rank 0) all 0 all)
      (Met-Sends rank (rank 0) all 0 w ranked (omega arith) (Below-Met all 0 w below))
