-- ===== src/Hook/Position/Moved.antt =====
-- What the client sees of a move that it has asked for.
use seamlessrdp.Base.{
  ℕ, zero, suc, replicate, inl, inr, Bool-cases, ◌≡◌, refl, true, false, List, [], ◌∷◌, ◌++◌, some,
  ==_iff, arith,
}
use seamlessrdp.Base.Int.{wrap_within}
use seamlessrdp.Shared.{hwnd_to_long, long_to_hwnd}
use seamlessrdp.Hook.{Rect, Msg, position, ack, Blocks}
use seamlessrdp.Hook.Position.{
  Answers, equal_rect, seen_rect, report, update_position, update_positions, Place, rect_of,
  Response, add_borders, block_moves, check_move, safe_move_window,
}
use seamlessrdp.Hook.Position.Borders.{
  equal_rect_refl, inset, equal_rect-inset, bordered, IsNear, corners, add_borders-inset, width_of,
}

-- Windows moves the window as it is told and keeps its borders, and the hooks see it there `n` times.
abbrev pub granted : ℕ → Rect → Rect → Place → Response
granted n full frame q =
    let w = bordered (rect_of q) (inset full frame (rect_of q)) in
    record { notified = replicate n w; outer = some (rect_of q); later = w }

-- what the client hears of such a move before its acknowledgement
abbrev pub echoes : ℕ → Rect → Rect → ℕ → Place → List Msg
echoes n full frame hwnd p = elim (equal_rect full frame) [
  | true ↦ []
  | false ↦ replicate n (position (hwnd_to_long hwnd) p.x p.y p.width p.height)
]

update_position-granted :
    (sh : Blocks) (serial hwnd : ℕ) (full frame : Rect) (p q : Place)
    → IsNear full frame p
    → long_to_hwnd (hwnd_to_long hwnd) ≡ hwnd
    → inset full frame (rect_of q) ≡ corners p
    → update_position
        (block_moves sh serial hwnd (rect_of q))
        hwnd
        (bordered (rect_of q) (inset full frame (rect_of q)))
      ≡ echoes 1 full frame hwnd p
unfolding update_position seen_rect report
update_position-granted sh serial hwnd full frame p q n handle shown =
    rw
      (
        handle,
        (==_iff hwnd hwnd).1 refl,
        equal_rect-inset full frame (rect_of q),
        shown,
        width_of p.x p.width,
        width_of p.y p.height,
        wrap_within p.width n.width (omega arith),
        wrap_within p.height n.height (omega arith),
      )
      (ground arith)

echoes-suc :
    (n : ℕ) (full frame : Rect) (hwnd : ℕ) (p : Place)
    → echoes 1 full frame hwnd p ++ echoes n full frame hwnd p ≡ echoes (suc n) full frame hwnd p
echoes-suc n full frame hwnd p = elim (Bool-cases (equal_rect full frame)) [
  | inl bare ↦ rw (bare, echoes, ◌++◌) refl
  | inr borders ↦ rw (borders, echoes, ◌++◌) refl
]

echoes-zero : (full frame : Rect) (hwnd : ℕ) (p : Place) → [] ≡ echoes 0 full frame hwnd p
echoes-zero full frame hwnd p = elim (Bool-cases (equal_rect full frame)) [
  | inl bare ↦ rw (bare, echoes) refl
  | inr borders ↦ rw (borders, echoes) refl
]

update_positions-granted :
    (n : ℕ) (sh : Blocks) (hwnd : ℕ) (full frame : Rect) (p : Place) (w : Answers)
    → update_position sh hwnd w ≡ echoes 1 full frame hwnd p
    → update_positions sh hwnd (replicate n w) ≡ echoes n full frame hwnd p
unfolding update_positions
update_positions-granted zero sh hwnd full frame p w e = echoes-zero full frame hwnd p
update_positions-granted (suc n) sh hwnd full frame p w e =
    rw (e, update_positions-granted n sh hwnd full frame p w e) (echoes-suc n full frame hwnd p)

-- Let the coordinates and the borders be no further from 0 than 2 ^ 27, and the handle pass through a
-- `long`. A window that Windows moves as it is told, keeping its borders, and whose hooks see it at its
-- new place `n` times meanwhile, shows, borders left out, just the place asked for; the client hears of
-- it by the acknowledgement, and before it by `n` POSITIONs with the place that it asked for if the
-- window has borders, and none if it has not.
pub safe_move_window-granted :
    (n : ℕ) (sh : Blocks) (serial hwnd : ℕ) (full frame : Rect) (p : Place)
    (responds : Place → Response)
    → IsNear full frame p
    → long_to_hwnd (hwnd_to_long hwnd) ≡ hwnd
    → ((q : Place) → responds q ≡ granted n full frame q)
    → (safe_move_window true sh serial hwnd p (bordered full frame) responds).0
      ≡ echoes n full frame hwnd p ++ ack serial ∷ []
unfolding safe_move_window add_borders check_move
safe_move_window-granted n sh serial hwnd full frame p responds near handle grants =
    let q = (add_borders (bordered full frame) p).0 in
    let blocked = block_moves sh serial hwnd (rect_of q) in
    let once =
      update_position-granted sh serial hwnd full frame p q near handle
        (add_borders-inset full frame p near) in
    rw
      (
        grants q,
        update_positions-granted n blocked hwnd full frame p
            (bordered (rect_of q) (inset full frame (rect_of q))) once,
        equal_rect_refl (rect_of q),
      )
      refl
