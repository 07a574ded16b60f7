-- ===== src/Vchannel/Buffer/Space.antt =====
-- The free-space test of `vchannel_write` against the number of unread bytes.
use native.Mathlib.Nat.{mod-eq-sub-mod, mod-eq_of_lt}
use seamlessrdp.Base.{ℕ, ◌+◌, ◌-◌, ◌%◌, ◌≤◌, ◌<◌, ◌≡◌, ◌↔◌, true, arith, dec_lt, add_u32}
use seamlessrdp.Vchannel.Buffer.{Buffer, IsValid, has_room}
use seamlessrdp.Vchannel.Buffer.Window.{used, wrap}

-- one reduction suffices below twice the size
mod-wrap : (size k : ℕ) → k < size + size → k % size ≡ wrap size k
mod-wrap size k h = elim (dec_lt k size) [
  | yes p ↦ ground (arith, mod-eq_of_lt p)
  | no p ↦ ground (
    arith,
    mod-eq-sub-mod {n = k} {m = size} (omega arith),
    mod-eq_of_lt {n = k - size} {m = size} (omega arith),
  )
]

-- On a valid buffer and for at most `size` bytes, the tests of the wait loop let a write through
-- exactly when the unread bytes and the new ones together leave one byte free.
pub has_room_iff :
    (b : Buffer) (n : ℕ) → IsValid b → n ≤ b.size → (has_room b n ≡ true) ↔ (used b + n < b.size)
unfolding has_room
has_room_iff b n v h =
    let plain : add_u32 b.pw n ≡ b.pw + n = omega arith in
    let reduced : (b.pw + n) % b.size ≡ wrap b.size (b.pw + n) =
      mod-wrap b.size (b.pw + n) (omega arith) in
    rw (plain, reduced) (ground arith)
