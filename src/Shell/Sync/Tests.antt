-- ===== src/Shell/Sync/Tests.antt =====
-- A synchronization of a window and its dialog.
use mathlib.Core.List.{Memᴰ}
use seamlessrdp.Base.{
  ℕ, ◌≡◌, refl, true, false, List, [], ◌∷◌, ◌++◌, none, some, codes, ◌==◌, if◌then◌else◌, arith,
}
use seamlessrdp.Base.Int.{pos}
use seamlessrdp.Shared.{hwnd_to_long}
use seamlessrdp.Shell.Command.{equal}
use seamlessrdp.Hook.{Rect, Style, create, debug}
use seamlessrdp.Hook.Position.{no_rect}
use seamlessrdp.Shell.Sync.{
  Listed, parent_of, sent, sync_begin, sync_end, announce, describe, do_sync,
}
use seamlessrdp.Shell.Sync.Parents.{IsReport, IsReport-do_sync}
use seamlessrdp.Shell.Sync.Complete.{IsChild, Below, child, deeper, Sends-do_sync}
use seamlessrdp.Shell.Sync.Met.{Sends}

abbrev plain : Style
plain = record {
  visible = true;
  child = false;
  popup = false;
  maximize = false;
  minimize = false;
  modalframe = false;
  topmost = false;
  toolwindow = false;
}

abbrev main_rect : Rect
main_rect = record { left = pos 10; top = pos 20; right = pos 210; bottom = pos 120 }

abbrev main_window : Listed
main_window = record {
  hwnd = 0x2002A;
  owner = 0;
  style = plain;
  class = some (codes "Notepad");
  pid = 1234;
  rect = some main_rect;
  title = codes "Untitled";
}

-- its rectangle cannot be read
abbrev dialog : Listed
dialog = record {
  hwnd = 0x30030;
  owner = 0x2002A;
  style = record plain { popup = true; modalframe = true };
  class = some (codes "#32770");
  pid = 1234;
  rect = none;
  title = codes "Save";
}

abbrev desktop : List Listed
desktop = dialog ∷ main_window ∷ []

abbrev rank : ℕ → ℕ
rank h = if h == 0 then 2 else if h == 0x2002A then 1 else 0

synced :
    do_sync 2 desktop
    ≡ some (
        sync_begin
        ∷ announce main_window
        ∷ (describe main_window main_rect
            ++ announce dialog ∷ sent (debug no_rect) ∷ sync_end ∷ []))
unfolding do_sync equal parent_of
synced = refl

IsReport-do_sync_example : IsReport [] (do_sync (rank 0) desktop)
unfolding parent_of
IsReport-do_sync_example = IsReport-do_sync rank desktop (omega arith, (omega arith, tt))

main_window-IsChild : IsChild 0 main_window
main_window-IsChild = record { visible = refl; windowed = λ e. cc; belongs = refl }

dialog-IsChild : IsChild 0x2002A dialog
dialog-IsChild = record { visible = refl; windowed = λ e. cc; belongs = refl }

dialog-Below : Below desktop 0 dialog
dialog-Below =
    deeper 0 main_window dialog main_rect (Memᴰ.tail (Memᴰ.head refl)) main_window-IsChild refl
      (child 0x2002A dialog (Memᴰ.head refl) dialog-IsChild)

Sends-do_sync_example :
    Sends
      (sent (create (hwnd_to_long 0x30030) 1234 (hwnd_to_long 0x2002A) 1))
      (do_sync (rank 0) desktop)
unfolding parent_of hwnd_to_long
Sends-do_sync_example =
    Sends-do_sync rank desktop dialog (omega arith, (omega arith, tt)) dialog-Below
