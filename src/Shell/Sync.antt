-- ===== src/Shell/Sync.antt =====
-- `do_sync` and `enum_cb` of ServerExe/main.c: all windows are reported to the client, parents first.
pub mod Parents
pub mod Met
pub mod Complete
mod Tests
use seamlessrdp.Base.{
  ℕ, zero, suc, Bool, true, false, not, ◌&&◌, ◌||◌, List, [], ◌∷◌, ◌++◌, Option, none, some, Bytes,
  ◌==◌, if◌then◌else◌,
}
use seamlessrdp.Base.Int.{ℤ, sub_i32}
use seamlessrdp.Shared.{hwnd_to_long}
use seamlessrdp.Vchannel.Text.{strfilter_unicode}
use seamlessrdp.Hook.{Rect, Style, Msg, create, listed_title, position, state, debug, create_modal}
use seamlessrdp.Hook.Position.{no_rect}
use seamlessrdp.Hook.State.{current_state}
use seamlessrdp.Hook.Events.{is_console}

-- A window of the list that EnumWindows walks, with the answers about it: `owner` is the result of
-- `GetWindowLongPtr(hwnd, GWLP_HWNDPARENT)`.
pub record Listed : Type 0 where
  pub hwnd : ℕ
  pub owner : ℕ
  pub style : Style
  pub class : Option Bytes
  pub pid : ℕ
  pub rect : Option Rect
  pub title : List ℕ

-- A message, SYNCBEGIN, SYNCEND, or the call of `vchannel_process`.
pub data Sent : Type 0 where
  sent : Msg → Sent
  sync_begin : Sent
  sync_end : Sent
  pumped : Sent

unfoldable pub parent_of : Listed → ℕ
parent_of w = if w.style.popup then w.owner else 0

-- the tests at the start of `enum_cb`
unfoldable pub is_listed : ℕ → Listed → Bool
is_listed parent w = w.style.visible && (not (is_console w.class) && parent == parent_of w)

-- the CREATE of a window
unfoldable pub announce : Listed → Sent
announce w = sent (
    create (hwnd_to_long w.hwnd) w.pid (hwnd_to_long (parent_of w))
      (if w.style.modalframe then create_modal else 0))

-- the other messages, up to `vchannel_process`
unfoldable pub describe : Listed → Rect → List Sent
describe w r =
    let h = hwnd_to_long w.hwnd in
    sent (position h r.left r.top (sub_i32 r.right r.left) (sub_i32 r.bottom r.top))
    ∷ sent (listed_title h (strfilter_unicode w.title))
    ∷ sent (state h (current_state w.style))
    ∷ pumped
    ∷ []

abbrev pub append : Option (List Sent) → Option (List Sent) → Option (List Sent)
append none rest = none
append (some out) none = none
append (some out) (some rest) = some (out ++ rest)

-- `enum_cb` for a window that passes the tests; `children` is the result of the inner EnumWindows.
unfoldable pub report_window : Listed → Option (List Sent) → Option (List Sent)
unfolding announce describe
report_window w children = elim w.rect [
  | none ↦ some (announce w ∷ sent (debug no_rect) ∷ [])
  | some r ↦ append (some (announce w ∷ describe w r)) children
]

-- `EnumWindows(enum_cb, parent)`: `all` are the windows of the desktop, and the last argument those that
-- are still to come. The fuel bounds the depth of the calls; `none` means that it was not enough.
unfoldable pub enum_windows : ℕ → List Listed → ℕ → List Listed → Option (List Sent)
unfolding report_window is_listed
enum_windows fuel all parent [] = some []
enum_windows zero all parent (w ∷ ws) =
    let rest = enum_windows zero all parent ws in
    if is_listed parent w then append (report_window w none) rest else rest
enum_windows (suc fuel) all parent (w ∷ ws) =
    let rest = enum_windows (suc fuel) all parent ws in
    let children = enum_windows fuel all w.hwnd all in
    if is_listed parent w then append (report_window w children) rest else rest

unfoldable pub do_sync : ℕ → List Listed → Option (List Sent)
unfolding enum_windows
do_sync fuel all = elim (enum_windows fuel all 0 all) [
  | none ↦ none
  | some out ↦ some (sync_begin ∷ (out ++ sync_end ∷ []))
]
