-- ===== src/Shared/Handle.antt =====
-- Handles pass through a `long` unharmed if only their low 32 bits are in use.
use seamlessrdp.Base.{ℕ, ◌-◌, ◌≤◌, ◌<◌, ◌^◌, ◌≡◌, ◌⊎◌, ◌↔◌, arith}
use seamlessrdp.Shared.{hwnd_to_long, long_to_hwnd}

-- A `long` comes back from its handle, and a handle from its `long` exactly when its upper bits are
-- copies of the sign bit of its lower half.
pub hwnd_to_long-long_to_hwnd :
    (l hwnd : ℕ)
    → l < 2 ^ 32
    → hwnd < 2 ^ 64
    → (hwnd_to_long (long_to_hwnd l) ≡ l)
      × ((long_to_hwnd (hwnd_to_long hwnd) ≡ hwnd) ↔ ((hwnd < 2 ^ 31) ⊎ (2 ^ 64 - 2 ^ 31 ≤ hwnd)))
unfolding hwnd_to_long long_to_hwnd
hwnd_to_long-long_to_hwnd l hwnd small wide = ground arith
