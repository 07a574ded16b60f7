-- ===== src/Shared.antt =====
-- `hwnd_to_long` and `long_to_hwnd` of ServerExe/shared.c, where pointers have 64 bits. A handle is
-- the number below 2 ^ 64 of its bits, and a `long`, of 32 bits, the number below 2 ^ 32 of its.
pub mod Handle
pub mod Icon
mod Tests
use seamlessrdp.Base.{ℕ, ◌+◌, ◌-◌, ◌%◌, ◌^◌, ltb, if◌then◌else◌}

-- the conversion to `long` keeps the low bits
unfoldable pub hwnd_to_long : ℕ → ℕ
hwnd_to_long hwnd = hwnd % 2 ^ 32

-- the conversion of a `long` to DWORD_PTR extends its sign
unfoldable pub long_to_hwnd : ℕ → ℕ
long_to_hwnd l = if ltb l (2 ^ 31) then l else l + (2 ^ 64 - 2 ^ 32)
