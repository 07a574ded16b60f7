-- ===== src/Hook/Position.antt =====
-- `update_position` and `SafeMoveWindow` of ServerExe/hookdll.c: the position of a window, reported to
-- the client and set by it.
pub mod Borders
pub mod Moved
pub mod Once
use seamlessrdp.Base.{
  ℕ, Bool, true, false, not, ◌&&◌, List, [], ◌∷◌, ◌++◌, Option, none, some, Bytes, codes, ◌==◌,
  if◌then◌else◌,
}
use seamlessrdp.Base.Int.{ℤ, pos, eq_ℤ, add_i32, sub_i32}
use seamlessrdp.Shared.{hwnd_to_long, long_to_hwnd}
use seamlessrdp.Hook.{Rect, Msg, position, ack, debug, Blocks, zero_rect}

-- What Windows answers about a window at one moment: `frame` is the result of
-- `DwmGetWindowAttribute` and `outer` that of `GetWindowRect`; `none` is a failure.
pub record Answers : Type 0 where
  pub frame : Option Rect
  pub outer : Option Rect

unfoldable pub equal_rect : Rect → Rect → Bool
equal_rect r s =
    eq_ℤ r.left s.left && eq_ℤ r.top s.top && eq_ℤ r.right s.right && eq_ℤ r.bottom s.bottom

-- the rectangle that `update_position` works with
unfoldable pub seen_rect : Answers → Option Rect
seen_rect w = elim w.frame [ some r ↦ some r | none ↦ w.outer ]

unfoldable pub report : ℕ → Rect → Msg
report hwnd r =
    position (hwnd_to_long hwnd) r.left r.top (sub_i32 r.right r.left) (sub_i32 r.bottom r.top)

unfoldable pub update_position : Blocks → ℕ → Answers → List Msg
update_position sh hwnd w = elim (seen_rect w) [
  | none ↦ []
  | some r ↦
      if hwnd == long_to_hwnd sh.block_move_hwnd && equal_rect r sh.block_move
      then []
      else report hwnd r ∷ []
]

-- the calls of `update_position` that Windows makes through the hooks, in their order
unfoldable pub update_positions : Blocks → ℕ → List Answers → List Msg
update_positions sh hwnd [] = []
update_positions sh hwnd (w ∷ ws) = update_position sh hwnd w ++ update_positions sh hwnd ws

-- the arguments of a move
pub record Place : Type 0 where
  pub x : ℤ
  pub y : ℤ
  pub width : ℤ
  pub height : ℤ

abbrev pub rect_of : Place → Rect
rect_of p = record {
  left = p.x;
  top = p.y;
  right = add_i32 p.x p.width;
  bottom = add_i32 p.y p.height;
}

-- What happens in `SetWindowPos` and behind it: `notified` are the answers that the hooks meet while
-- it runs, `outer` that of the next `GetWindowRect`, and `later` those of the last `update_position`.
pub record Response : Type 0 where
  pub notified : List Answers
  pub outer : Option Rect
  pub later : Answers

abbrev pub no_rect : Bytes
no_rect = codes "GetWindowRect failed!"

-- the place with the borders, up to `no_window_shift`
unfoldable pub add_borders : Answers → Place → Place × List Msg
add_borders w p = elim w.outer [
  | none ↦ (p, debug no_rect ∷ [])
  | some full ↦ elim w.frame [
    | none ↦ (p, [])
    | some r ↦
        let border_top = sub_i32 r.top full.top in
        let border_left = sub_i32 r.left full.left in
        let border_right = sub_i32 full.right r.right in
        let border_bottom = sub_i32 full.bottom r.bottom in
        (
          record {
            x = sub_i32 p.x border_left;
            y = sub_i32 p.y border_top;
            width = add_i32 (add_i32 p.width border_right) border_left;
            height = add_i32 (add_i32 p.height border_top) border_bottom;
          },
          [],
        )
  ]
]

abbrev pub block_moves : Blocks → ℕ → ℕ → Rect → Blocks
block_moves sh serial hwnd r = record sh {
  block_move_hwnd = hwnd_to_long hwnd;
  block_move_serial = serial;
  block_move = r;
}

abbrev pub unblock_moves : Blocks → Blocks
unblock_moves sh = record sh { block_move_hwnd = 0; block_move = zero_rect }

-- the check of the result
unfoldable pub check_move : Blocks → ℕ → Rect → Response → List Msg
check_move sh hwnd target w = elim w.outer [
  | none ↦ debug no_rect ∷ []
  | some r ↦ if not (equal_rect r target) then update_position sh hwnd w.later else []
]

-- `responds` is what Windows does with a call of `SetWindowPos`.
unfoldable pub safe_move_window :
    Bool → Blocks → ℕ → ℕ → Place → Answers → (Place → Response) → List Msg × Blocks
safe_move_window false sh serial hwnd p now responds = ([], sh)
safe_move_window true sh serial hwnd p now responds =
    let (full, complaint) = add_borders now p in
    let blocked = block_moves sh serial hwnd (rect_of full) in
    let w = responds full in
    (
      complaint
          ++ (update_positions blocked hwnd w.notified
              ++ (ack serial ∷ check_move blocked hwnd (rect_of full) w)),
      unblock_moves blocked,
    )
