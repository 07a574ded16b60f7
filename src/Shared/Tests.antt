-- ===== src/Shared/Tests.antt =====
-- Handles below and above the sign bit, and icons.
use seamlessrdp.Base.{
  ℕ, ◌*◌, ◌∷◌, Bytes, ◌++◌, replicate, length-replicate, ◌-◌, ◌≤◌, ◌<◌, ◌^◌, ◌≡◌, ◌⊎◌, ◌↔◌, refl,
  false, [], some, ◌==◌, if◌then◌else◌, arith,
}
use seamlessrdp.Shared.{hwnd_to_long, long_to_hwnd}
use seamlessrdp.Shared.Icon.{Bitmap, overrun, pixels, convert, extract_bits, extract_icon, get_icon}
use seamlessrdp.Shared.Icon.Pixels.{readable, extract_icon-overrun_iff}
use seamlessrdp.Shared.Handle.{hwnd_to_long-long_to_hwnd}

sign_extended : long_to_hwnd 0x8000_0000 ≡ 0xFFFF_FFFF_8000_0000
unfolding long_to_hwnd
sign_extended = refl

hwnd_to_long-long_to_hwnd_example :
    (hwnd_to_long (long_to_hwnd 0x8000_0000) ≡ 0x8000_0000)
    × ((long_to_hwnd (hwnd_to_long 0x1_0000_0001) ≡ 0x1_0000_0001)
        ↔ ((0x1_0000_0001 < 2 ^ 31) ⊎ (2 ^ 64 - 2 ^ 31 ≤ 0x1_0000_0001)))
hwnd_to_long-long_to_hwnd_example =
    hwnd_to_long-long_to_hwnd 0x8000_0000 0x1_0000_0001 (omega arith) (omega arith)

abbrev wide : Bitmap
wide = record { width = 33; height = 31 }

abbrev wide_bits : Bytes
wide_bits = replicate 4464 0x10

-- An icon of 33 by 31 pixels passes the test of 4096 bytes, and its padded rows take 4464.
extract_icon-overrun_iff_example :
    (extract_icon (readable wide wide_bits wide_bits) 4096 ≡ overrun)
    ↔ (4096 < 36 * wide.height * 4)
extract_icon-overrun_iff_example =
    extract_icon-overrun_iff wide 36 wide_bits wide_bits 4096
      (record { whole = refl; enough = omega arith; least = omega arith }) (omega arith)
      (length-replicate {A = ℕ} 4464 0x10) (length-replicate {A = ℕ} 4464 0x10)

-- the same with one pixel, of a row of four
abbrev dot : Bitmap
dot = record { width = 1; height = 1 }

abbrev dot_bits : Bytes
dot_bits = replicate 16 0x10

dot_overrun : extract_icon (readable dot dot_bits dot_bits) 4 ≡ overrun
unfolding extract_icon extract_bits convert
dot_overrun = refl

dot_pixels :
    extract_icon (readable dot dot_bits dot_bits) 16
    ≡ pixels (
        replicate 3 0x10
        ++ 0xEF
          ∷ (replicate 3 0x10
              ++ 0xEF ∷ (replicate 3 0x10 ++ 0xEF ∷ (replicate 3 0x10 ++ 0xEF ∷ []))))
unfolding extract_icon extract_bits convert
dot_pixels = refl

-- The window has no small icon of the old number, but one of the new.
small_icon_found : get_icon false (λ k. if k == 2 then some 77 else some 0) (λ large. 0) ≡ 77
unfolding get_icon
small_icon_found = refl
