-- ===== src/Shell/Request/Reported.antt =====
-- No request is left pending in `shared_variables`.
use seamlessrdp.Base.{ℕ, ◌≡◌, ◌≢◌, refl, Bool, true, false, List, [], ◌∷◌, none, some, Bytes, arith}
use seamlessrdp.Base.Int.{ℤ}
use seamlessrdp.Shared.{hwnd_to_long, long_to_hwnd}
use seamlessrdp.Shell.Command.{
  Call, sync, set_state, move_window, zchange, focus, destroy, spawn, persistent, Handled, done,
  crashed, overrun, handle_line,
}
use seamlessrdp.Shell.Request.{Windows, carry_out, serve_lines}
use seamlessrdp.Hook as Hook
use seamlessrdp.Hook.{Rect, Style, Blocks}
use seamlessrdp.Hook.State.{Shown, shown_state, min_max, safe_set_state}
use seamlessrdp.Hook.State.Acked.{min_max-reported}
use seamlessrdp.Hook.Position.{
  Answers, Place, Response, seen_rect, report, update_position, safe_move_window,
}
use seamlessrdp.Hook.Position.Once.{update_position-unblocked}
use seamlessrdp.Hook.Order.{Window, window_above, update_zorder, safe_zchange}
use seamlessrdp.Hook.Order.Behind.{flags_of}
use seamlessrdp.Hook.Focus.{safe_focus}

-- No window is blocked.
pub record IsClear (sh : Blocks) : Type 0 where
  pub move : sh.block_move_hwnd ≡ 0
  pub order : sh.blocked_zchange_0 ≡ 0
  pub focused : sh.blocked_focus ≡ 0
  pub state : sh.blocked_state_hwnd ≡ 0

safe_set_state-IsClear :
    (i : Bool) (sh : Blocks) (serial hwnd : ℕ) (s : ℤ) (style : Style) (responds : ℕ → List Shown)
    → IsClear sh
    → IsClear (safe_set_state i sh serial hwnd s style responds).1
unfolding safe_set_state
safe_set_state-IsClear i sh serial hwnd s style responds clear = record {
  move = ground (arith, clear.move);
  order = ground (arith, clear.order);
  focused = ground (arith, clear.focused);
  state = ground (arith, clear.state);
}

safe_move_window-IsClear :
    (i : Bool) (sh : Blocks) (serial hwnd : ℕ) (p : Place) (now : Answers)
    (responds : Place → Response)
    → IsClear sh
    → IsClear (safe_move_window i sh serial hwnd p now responds).1
unfolding safe_move_window
safe_move_window-IsClear false sh serial hwnd p now responds clear = clear
safe_move_window-IsClear true sh serial hwnd p now responds clear = record {
  move = refl;
  order = clear.order;
  focused = clear.focused;
  state = clear.state;
}

carry_out-IsClear :
    (i : Bool) (sh : Blocks) (w : Windows) (c : Call) → IsClear sh → IsClear (carry_out i sh w c).1
unfolding carry_out safe_zchange safe_focus
carry_out-IsClear i sh w (set_state serial hwnd s) clear =
    safe_set_state-IsClear i sh serial hwnd s (w.style hwnd) (w.shows hwnd) clear
carry_out-IsClear i sh w (move_window serial hwnd x y width height) clear =
    safe_move_window-IsClear i sh serial hwnd _ (w.place hwnd) (w.moves hwnd) clear
carry_out-IsClear false sh w (zchange serial hwnd behind) clear = clear
carry_out-IsClear true sh w (zchange serial hwnd behind) clear = record {
  move = clear.move;
  order = refl;
  focused = clear.focused;
  state = clear.state;
}
carry_out-IsClear false sh w (focus serial hwnd) clear = clear
carry_out-IsClear true sh w (focus serial hwnd) clear = record {
  move = clear.move;
  order = clear.order;
  focused = refl;
  state = clear.state;
}
carry_out-IsClear i sh w sync clear = clear
carry_out-IsClear i sh w (destroy hwnd) clear = clear
carry_out-IsClear i sh w (spawn serial cmd) clear = clear
carry_out-IsClear i sh w (persistent serial enable) clear = clear

serve_lines-step :
    (i : Bool) (sh : Blocks) (w : Windows) (line : Bytes) (more : List (Windows × Bytes))
    (h : Handled)
    → handle_line line ≡ h
    → IsClear sh
    → ((sh' : Blocks) → IsClear sh' → IsClear (serve_lines i sh' more).1)
    → IsClear (serve_lines i sh ((w, line) ∷ more)).1
unfolding serve_lines
serve_lines-step i sh w line more (done none p) e clear rest = rw (e, serve_lines) (rest sh clear)
serve_lines-step i sh w line more (done (some c) p) e clear rest =
    rw (e, serve_lines) (rest _ (carry_out-IsClear i sh w c clear))
serve_lines-step i sh w line more crashed e clear rest = rw (e, serve_lines) clear
serve_lines-step i sh w line more overrun e clear rest = rw (e, serve_lines) clear

serve_lines-IsClear :
    (i : Bool) (sh : Blocks) (ls : List (Windows × Bytes))
    → IsClear sh
    → IsClear (serve_lines i sh ls).1
unfolding serve_lines
serve_lines-IsClear i sh [] clear = clear
serve_lines-IsClear i sh ((w, line) ∷ more) clear =
    serve_lines-step i sh w line more (handle_line line) refl clear
      (λ sh' clear'. serve_lines-IsClear i sh' more clear')

update_zorder-unblocked :
    (sh : Blocks) (w : Window) (above : List Window)
    → sh.blocked_zchange_0 ≡ 0
    → w.hwnd ≢ 0
    → update_zorder sh w above
      ≡ Hook.zchange (hwnd_to_long w.hwnd) (hwnd_to_long (window_above above)) (flags_of w) ∷ []
unfolding update_zorder long_to_hwnd
update_zorder-unblocked sh w above clear nonzero = rw clear (ground arith)

-- Let no request be pending. Whatever lines the client then sends, also if one of them crashes the
-- shell, and whatever Windows answers meanwhile, none is pending behind them: a window that then moves,
-- changes its state or its place in the order by itself is reported, and no such change is taken
-- for the answer to a request.
pub serve_lines-reports :
    (i : Bool) (sh : Blocks) (ls : List (Windows × Bytes)) (w : Window) (place : Answers) (r : Rect)
    (show : ℕ) (s : ℤ) (above : List Window)
    → IsClear sh
    → w.hwnd ≢ 0
    → seen_rect place ≡ some r
    → w.style.visible ≡ true
    → shown_state show ≡ some s
    → (update_position (serve_lines i sh ls).1 w.hwnd place ≡ report w.hwnd r ∷ [])
      × (min_max (serve_lines i sh ls).1 w.hwnd w.style show
          ≡ Hook.state (hwnd_to_long w.hwnd) s ∷ [])
      × (update_zorder (serve_lines i sh ls).1 w above
          ≡ Hook.zchange (hwnd_to_long w.hwnd) (hwnd_to_long (window_above above)) (flags_of w)
            ∷ [])
serve_lines-reports i sh ls w place r show s above clear nonzero seen visible shown =
    let clear' = serve_lines-IsClear i sh ls clear in
    (
      update_position-unblocked _ w.hwnd place r clear'.move nonzero seen,
      min_max-reported _ w.hwnd s w.style show clear'.state nonzero visible shown,
      update_zorder-unblocked _ w above clear'.order nonzero,
    )
