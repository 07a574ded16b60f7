-- ===== src/Shell/Request/Acked.antt =====
-- The requests of the client are acknowledged.
use seamlessrdp.Base.{
  ℕ, ◌≤◌, ◌≡◌, ◌≢◌, refl, true, List, [], ◌∷◌, ◌++◌, Option, none, some, Bytes, All, ==_iff, arith,
  length, map,
}
use seamlessrdp.Base.Int.{ℤ}
use seamlessrdp.Shared.{hwnd_to_long, long_to_hwnd}
use seamlessrdp.Shell.Escape.Percent.{Encodes}
use seamlessrdp.Shell.Tokens.Fields.{join}
use seamlessrdp.Shell.Command.{Call, set_state, move_window, zchange, focus}
use seamlessrdp.Shell.Command.Carried.{
  name_of, fields_of, carried, IsClean, IsSent, handle_line-carried,
}
use seamlessrdp.Shell.Request.{Windows, window, carry_out, serve_lines}
use seamlessrdp.Hook.{Style, Blocks, acked, acked-++}
use seamlessrdp.Hook.Position.Once.{acked-safe_move_window}
use seamlessrdp.Hook.State.{Shown, show_command, safe_set_state}
use seamlessrdp.Hook.State.Acked.{ShowsOnce, safe_set_state-acked}
use seamlessrdp.Hook.Order.{
  Window, window_above, update_zorder, update_zorders, insert_after, safe_zchange, block_zchanges,
}
use seamlessrdp.Hook.Window.{is_toplevel}
use seamlessrdp.Hook.Events.{wndprocret_hook_proc, on_focus, on_return}
use seamlessrdp.Hook.Focus.{Visit, visits, safe_focus}

-- A window whose handle has no more than its low 32 bits in use.
abbrev pub IsHandle : ℕ → Type 0
IsHandle hwnd = long_to_hwnd (hwnd_to_long hwnd) ≡ hwnd

-- A request with its serial number, where Windows does as it is told: `ShowWindow` for a visible
-- window runs `cbt_hook_proc` once with its command, and no other hook that acknowledges;
-- `SetWindowPos` puts a window behind the one that was asked for and calls the hook once, and a
-- request for the focus reaches a top-level window once. A move may have any answer.
pub data Obeyed (w : Windows) : Call → ℕ → Type 0 where
  shown :
      (serial hwnd : ℕ) (s : ℤ)
      → IsHandle hwnd
      → (w.style hwnd).visible ≡ true
      → ((q : ℕ) → ShowsOnce (w.style hwnd) q (w.shows hwnd q))
      → show_command s ≢ none
      → Obeyed w (set_state serial hwnd s) serial
  moved :
      (serial hwnd : ℕ) (x y width height : ℤ)
      → Obeyed w (move_window serial hwnd x y width height) serial
  ordered :
      (serial hwnd behind : ℕ)
      → IsHandle hwnd
      → IsHandle behind
      → map window_above (w.stacks hwnd (insert_after (window w hwnd) (window w behind)))
        ≡ behind ∷ []
      → Obeyed w (zchange serial hwnd behind) serial
  focused :
      (serial hwnd : ℕ)
      → map (λ v. is_toplevel v.window) (w.visits hwnd) ≡ true ∷ []
      → Obeyed w (focus serial hwnd) serial

safe_set_state-acked_list :
    (sh : Blocks) (serial hwnd : ℕ) (s : ℤ) (style : Style) (responds : ℕ → List Shown)
    (command : Option ℕ)
    → IsHandle hwnd
    → style.visible ≡ true
    → ((q : ℕ) → ShowsOnce style q (responds q))
    → show_command s ≡ command
    → command ≢ none
    → acked (safe_set_state true sh serial hwnd s style responds).0 ≡ serial ∷ []
safe_set_state-acked_list sh serial hwnd s style responds none handle visible once e known =
    elim (known refl) [ ]
safe_set_state-acked_list sh serial hwnd s style responds (some show) handle visible once e known =
    safe_set_state-acked sh serial hwnd s style responds show handle visible once e

update_zorders-acked :
    (sh : Blocks) (serial : ℕ) (w : Window) (behind : ℕ) (stacks : List (List Window))
    → IsHandle w.hwnd
    → IsHandle behind
    → map window_above stacks ≡ behind ∷ []
    → acked (update_zorders (block_zchanges sh serial w.hwnd behind) w stacks) ≡ serial ∷ []
unfolding update_zorders update_zorder
update_zorders-acked sh serial w behind [] handle handle' there = ground arith
update_zorders-acked sh serial w behind (above ∷ []) handle handle' there =
    let same : window_above above ≡ behind = ground (arith, there) in
    rw (handle, handle', (==_iff w.hwnd w.hwnd).1 refl, (==_iff (window_above above) behind).1 same)
      refl
update_zorders-acked sh serial w behind (above ∷ other ∷ more) handle handle' there = ground arith

visits-acked :
    (sh : Blocks) (vs : List Visit)
    → map (λ v. is_toplevel v.window) vs ≡ true ∷ []
    → acked (visits sh vs).1 ≡ sh.blocked_focus_serial ∷ []
unfolding visits wndprocret_hook_proc on_focus on_return
visits-acked sh [] there = ground arith
visits-acked sh (v ∷ []) there =
    let top : is_toplevel v.window ≡ true = ground (arith, there) in rw top refl
visits-acked sh (v ∷ u ∷ more) there = ground arith

carry_out-acked :
    (sh : Blocks) (w : Windows) (c : Call) (serial : ℕ)
    → Obeyed w c serial
    → acked (carry_out true sh w c).0 ≡ serial ∷ []
unfolding carry_out safe_zchange safe_focus
carry_out-acked sh w _ _ (shown serial hwnd s handle visible once known) =
    safe_set_state-acked_list sh serial hwnd s (w.style hwnd) (w.shows hwnd) (show_command s) handle
      visible once refl known
carry_out-acked sh w _ _ (moved serial hwnd x y width height) =
    acked-safe_move_window sh serial hwnd (record { x = x; y = y; width = width; height = height })
      (w.place hwnd) (w.moves hwnd)
carry_out-acked sh w _ _ (ordered serial hwnd behind handle handle' there) =
    update_zorders-acked sh serial (window w hwnd) behind
      (w.stacks hwnd (insert_after (window w hwnd) (window w behind))) handle handle' there
carry_out-acked sh w _ _ (focused serial hwnd there) = visits-acked _ (w.visits hwnd) there

-- A line in which the client sends such a request, which may have further fields.
pub record IsRequest (w : Windows) (line : Bytes) (serial : ℕ) : Type 0 where
  pub call : Call
  pub extra : List Bytes
  pub sent : IsSent call
  pub clean : All IsClean extra
  pub encodes : Encodes line (join (name_of call) (fields_of call ++ extra))
  pub few : length (fields_of call ++ extra) ≤ 7
  pub obeyed : Obeyed w (carried call) serial

-- Lines of requests with their serial numbers.
pub data Requests : List (Windows × Bytes) → List ℕ → Type 0 where
  no_more : Requests [] []
  next :
      (w : Windows) (line : Bytes) (serial : ℕ) (ls : List (Windows × Bytes)) (serials : List ℕ)
      → IsRequest w line serial
      → Requests ls serials
      → Requests ((w, line) ∷ ls) (serial ∷ serials)

-- When the client sends requests for states, places, the order and the focus, and Windows does as it
-- is told (`Obeyed`), then each request is acknowledged exactly once, with its own serial number and
-- in the order of the lines, whatever requests were pending before.
pub serve_lines-acked :
    (sh : Blocks) (ls : List (Windows × Bytes)) (serials : List ℕ)
    → Requests ls serials
    → acked (serve_lines true sh ls).0 ≡ serials
unfolding serve_lines
serve_lines-acked sh _ _ no_more = refl
serve_lines-acked sh _ _ (next w line serial ls serials r rest) =
    let sh' = (carry_out true sh w (carried r.call)).1 in
    rw
      (
        handle_line-carried r.call r.extra line r.sent r.clean r.encodes r.few,
        serve_lines,
        acked-++ (carry_out true sh w (carried r.call)).0 (serve_lines true sh' ls).0,
        carry_out-acked sh w (carried r.call) serial r.obeyed,
        serve_lines-acked sh' ls serials rest,
      )
      refl
