-- ===== src/Hook/Position/Once.antt =====
-- What every move does, whatever Windows makes of it.
use seamlessrdp.Base.{ℕ, ◌≡◌, ◌≢◌, refl, true, List, [], ◌∷◌, ◌++◌, some, arith}
use seamlessrdp.Shared.{long_to_hwnd}
use seamlessrdp.Hook.{Rect, ack, Blocks, acked, acked-++}
use seamlessrdp.Hook.Position.{
  Answers, seen_rect, report, update_position, update_positions, Place, rect_of, Response,
  add_borders, block_moves, check_move, safe_move_window,
}

pub acked-update_position :
    (sh : Blocks) (hwnd : ℕ) (w : Answers) → acked (update_position sh hwnd w) ≡ []
unfolding update_position report
acked-update_position sh hwnd w = ground arith

acked-update_positions :
    (sh : Blocks) (hwnd : ℕ) (ws : List Answers) → acked (update_positions sh hwnd ws) ≡ []
unfolding update_positions
acked-update_positions sh hwnd [] = refl
acked-update_positions sh hwnd (w ∷ ws) =
    rw
      (
        acked-++ (update_position sh hwnd w) (update_positions sh hwnd ws),
        acked-update_position sh hwnd w,
        acked-update_positions sh hwnd ws,
      )
      refl

acked-check_move :
    (sh : Blocks) (hwnd : ℕ) (target : Rect) (w : Response)
    → acked (check_move sh hwnd target w) ≡ []
unfolding check_move
acked-check_move sh hwnd target w = ground (arith, acked-update_position sh hwnd w.later)

acked-add_borders : (now : Answers) (p : Place) → acked (add_borders now p).1 ≡ []
unfolding add_borders
acked-add_borders now p = ground arith

pub acked-safe_move_window :
    (sh : Blocks) (serial hwnd : ℕ) (p : Place) (now : Answers) (responds : Place → Response)
    → acked (safe_move_window true sh serial hwnd p now responds).0 ≡ serial ∷ []
unfolding safe_move_window
acked-safe_move_window sh serial hwnd p now responds =
    let full = (add_borders now p).0 in
    let blocked = block_moves sh serial hwnd (rect_of full) in
    let checked = check_move blocked hwnd (rect_of full) (responds full) in
    let updates = update_positions blocked hwnd (responds full).notified in
    rw
      (
        acked-++ (add_borders now p).1 (updates ++ (ack serial ∷ checked)),
        acked-add_borders now p,
        acked-++ updates (ack serial ∷ checked),
        acked-update_positions blocked hwnd (responds full).notified,
        acked-check_move blocked hwnd (rect_of full) (responds full),
      )
      refl

pub update_position-unblocked :
    (sh : Blocks) (hwnd : ℕ) (w : Answers) (r : Rect)
    → sh.block_move_hwnd ≡ 0
    → hwnd ≢ 0
    → seen_rect w ≡ some r
    → update_position sh hwnd w ≡ report hwnd r ∷ []
unfolding update_position long_to_hwnd
update_position-unblocked sh hwnd w r clear nonzero seen =
    rw (update_position, seen, clear) (ground arith)

-- A move is acknowledged exactly once, with its own serial number, and leaves the block clear, so that the next report of a
-- window's position is sent.
safe_move_window-acked :
    (sh : Blocks) (serial hwnd : ℕ) (p : Place) (now : Answers) (responds : Place → Response)
    (other : ℕ) (w : Answers) (r : Rect)
    → other ≢ 0
    → seen_rect w ≡ some r
    → (acked (safe_move_window true sh serial hwnd p now responds).0 ≡ serial ∷ [])
      × (update_position (safe_move_window true sh serial hwnd p now responds).1 other w
          ≡ report other r ∷ [])
unfolding safe_move_window
safe_move_window-acked sh serial hwnd p now responds other w r nonzero seen = (
  acked-safe_move_window sh serial hwnd p now responds,
  update_position-unblocked _ other w r refl nonzero seen,
)
