-- ===== src/Shell/Request.antt =====
-- From a line of the client in `process_cmds` of ServerExe/main.c through `do_state`, `do_position`,
-- `do_zchange` and `do_focus` to the functions of ServerExe/hookdll.c that carry it out.
pub mod Acked
pub mod Reported
mod Tests
use seamlessrdp.Base.{ℕ, Bool, List, [], ◌∷◌, ◌++◌, Option, none, some, Bytes}
use seamlessrdp.Shell.Command.{
  Call, sync, set_state, move_window, zchange, focus, destroy, spawn, persistent, Handled, done,
  crashed, overrun, handle_line,
}
use seamlessrdp.Hook.{Style, Msg, Blocks}
use seamlessrdp.Hook.State.{Shown, safe_set_state}
use seamlessrdp.Hook.Position.{Answers, Place, Response, safe_move_window}
use seamlessrdp.Hook.Order.{Window, safe_zchange}
use seamlessrdp.Hook.Focus.{Visit, safe_focus}

-- What Windows answers about the windows while one line is handled, by their handles: the styles and
-- places, and what the hooks meet in `ShowWindow`, in `SetWindowPos` for a move and for a new order, and
-- in `SendMessage` for the focus.
pub record Windows : Type 0 where
  pub style : ℕ → Style
  pub place : ℕ → Answers
  pub shows : ℕ → ℕ → List Shown
  pub moves : ℕ → Place → Response
  pub stacks : ℕ → ℕ → List (List Window)
  pub visits : ℕ → List Visit

abbrev pub window : Windows → ℕ → Window
window w hwnd = record { hwnd = hwnd; style = w.style hwnd }

-- The calls of the library: its messages, and `shared_variables` behind it. The other commands do
-- not call it.
unfoldable pub carry_out : Bool → Blocks → Windows → Call → List Msg × Blocks
carry_out initialized sh w (set_state serial hwnd s) =
    safe_set_state initialized sh serial hwnd s (w.style hwnd) (w.shows hwnd)
carry_out initialized sh w (move_window serial hwnd x y width height) =
    safe_move_window initialized sh serial hwnd
      (record { x = x; y = y; width = width; height = height }) (w.place hwnd) (w.moves hwnd)
carry_out initialized sh w (zchange serial hwnd behind) =
    safe_zchange initialized sh serial (window w hwnd) (window w behind) (w.stacks hwnd)
carry_out initialized sh w (focus serial hwnd) =
    let ((raised, out), sh') = safe_focus initialized sh serial hwnd (w.visits hwnd) in (out, sh')
carry_out initialized sh w sync = ([], sh)
carry_out initialized sh w (destroy hwnd) = ([], sh)
carry_out initialized sh w (spawn serial cmd) = ([], sh)
carry_out initialized sh w (persistent serial enable) = ([], sh)

-- The lines of the client, each with what Windows answers meanwhile, up to the first that crashes the
-- shell.
unfoldable pub serve_lines : Bool → Blocks → List (Windows × Bytes) → List Msg × Blocks
unfolding carry_out
serve_lines initialized sh [] = ([], sh)
serve_lines initialized sh ((w, line) ∷ more) = elim (handle_line line) [
  | done none p ↦ serve_lines initialized sh more
  | done (some c) p ↦
      let (out, sh') = carry_out initialized sh w c in
      let (rest, sh'') = serve_lines initialized sh' more in (out ++ rest, sh'')
  | crashed ↦ ([], sh)
  | overrun ↦ ([], sh)
]
