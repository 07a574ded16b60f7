-- ===== src/Hook.antt =====
-- ServerExe/hookdll.c: the library that is hooked into every process with windows. This module has the
-- data that its parts share: rectangles, styles, the messages that it writes, and `shared_variables`.
pub mod Position
pub mod State
pub mod Order
pub mod Icon
pub mod Window
pub mod Events
pub mod Focus
pub mod Library
pub mod Print
pub mod Stream
mod Tests
use seamlessrdp.Base.{
  ℕ, ◌+◌, Bool, true, false, List, [], ◌∷◌, ◌++◌, ◌≡◌, refl, Option, Bytes, ◌==◌, arith,
}
use seamlessrdp.Base.Int.{ℤ, pos, negsuc, eq_ℤ}

-- RECT
pub record Rect : Type 0 where
  pub left : ℤ
  pub top : ℤ
  pub right : ℤ
  pub bottom : ℤ

-- the bits of the window style and of the extended one that the code tests
pub record Style : Type 0 where
  pub visible : Bool
  pub child : Bool
  pub popup : Bool
  pub maximize : Bool
  pub minimize : Bool
  pub modalframe : Bool
  pub topmost : Bool
  pub toolwindow : Bool

-- The calls of `vchannel_write` with their arguments, those of ServerExe/main.c at the end, and `debug` for one of `vchannel_debug` with its
-- text. A window is printed by the low 32 bits of its handle.
pub data Msg : Type 0 where
  create : ℕ → ℕ → ℕ → ℕ → Msg
  title : ℕ → Bytes → Msg
  set_icon : ℕ → ℕ → ℕ → Bytes → Msg
  del_icon : ℕ → ℕ → Msg
  position : ℕ → ℤ → ℤ → ℤ → ℤ → Msg
  zchange : ℕ → ℕ → ℕ → Msg
  state : ℕ → ℤ → Msg
  destroy : ℕ → Msg
  destroy_group : ℕ → Msg
  ack : ℕ → Msg
  debug : Bytes → Msg
  hello : ℕ → Msg
  hide : Msg
  unhide : Msg
  sync_begin : Msg
  sync_end : Msg
  listed_title : ℕ → Bytes → Msg

-- `shared_variables`: the windows are stored as 32-bit numbers.
pub record Blocks : Type 0 where
  pub instance_count : ℤ
  pub block_move_hwnd : ℕ
  pub block_move_serial : ℕ
  pub block_move : Rect
  pub blocked_zchange_serial : ℕ
  pub blocked_zchange_0 : ℕ
  pub blocked_zchange_1 : ℕ
  pub blocked_focus_serial : ℕ
  pub blocked_focus : ℕ
  pub blocked_state_serial : ℕ
  pub blocked_state_hwnd : ℕ
  pub blocked_state : ℤ

abbrev pub zero_rect : Rect
zero_rect = record { left = pos 0; top = pos 0; right = pos 0; bottom = pos 0 }

-- SEAMLESS_CREATE_MODAL and SEAMLESS_CREATE_TOPMOST
abbrev pub create_modal : ℕ
create_modal = 1

abbrev pub create_topmost : ℕ
create_topmost = 2

-- the number of acknowledgements of a request
abbrev pub acks : ℕ → List Msg → ℕ
acks serial [] = 0
acks serial (ack s ∷ out) = elim (s == serial) [
  | true ↦ 1 + acks serial out
  | false ↦ acks serial out
]
acks serial (_ ∷ out) = acks serial out

-- the serial numbers that are acknowledged, in their order
abbrev pub acked : List Msg → List ℕ
acked [] = []
acked (ack s ∷ out) = s ∷ acked out
acked (_ ∷ out) = acked out

pub acked-++ : (out rest : List Msg) → acked (out ++ rest) ≡ acked out ++ acked rest
acked-++ [] rest = refl
acked-++ (m ∷ out) rest = ground (arith, acked-++ out rest)
