-- ===== src/Shared/Icon.antt =====
-- `get_icon` and `extract_icon` of ServerExe/shared.c: the icon of a window, and its pixels.
pub mod Pixels
use seamlessrdp.Base.{
  zero, suc, ℕ, ◌+◌, ◌-◌, ◌*◌, ◌/◌, Bool, true, false, not, ◌&&◌, ◌||◌, [], ◌∷◌, Option, none, some,
  Bytes, leb, ltb, ◌==◌, if◌then◌else◌,
}

-- ICON_SMALL and ICON_BIG, and the newer number of the small icons
abbrev icon_small : ℕ
icon_small = 0

abbrev icon_big : ℕ
icon_big = 1

abbrev icon_small2 : ℕ
icon_small2 = 2

-- `sends k` is the icon that the window answers to WM_GETICON, `none` if there is no answer in time;
-- `class_icon` is the result of `GetClassLongPtr`. An icon 0 is NULL.
unfoldable pub get_icon : Bool → (ℕ → Option ℕ) → (Bool → ℕ) → ℕ
get_icon large sends class_icon = elim (sends (if large then icon_big else icon_small)) [
  | none ↦ 0
  | some icon ↦
      if not (icon == 0)
      then icon
      else if large
      then class_icon large
      else elim (sends icon_small2) [
        | none ↦ 0
        | some icon2 ↦ if not (icon2 == 0) then icon2 else class_icon large
      ]
]

-- a BITMAP
pub record Bitmap : Type 0 where
  pub width : ℕ
  pub height : ℕ

-- What the calls of `extract_icon` answer, in their order: `mask_bits` and `color_bits` are the arrays
-- that `GetDIBits` fills.
pub record Answers : Type 0 where
  pub info : Bool
  pub mask_bmp : Option Bitmap
  pub color_bmp : Option Bitmap
  pub mask_buf : Bool
  pub color_buf : Bool
  pub dc : Bool
  pub mask_bits : Option Bytes
  pub color_bits : Option Bytes

-- -1, the bytes written to `buffer`, or an access past the end of an array
pub data Extracted : Type 0 where
  failed : Extracted
  pixels : Bytes → Extracted
  overrun : Extracted

-- The loop over the pixels: `left` are to come, and the buffer has `room` bytes left. `none` is an access
-- past the end of an array.
unfoldable pub convert : ℕ → ℕ → Bytes → Bytes → Option Bytes
convert zero room ms cs = some []
convert (suc left) room (m0 ∷ m1 ∷ m2 ∷ m3 ∷ ms) (c0 ∷ c1 ∷ c2 ∷ c3 ∷ cs) =
    let rest = convert left (room - 4) ms cs in
    if ltb room 4 then none else elim rest [
      | none ↦ none
      | some out ↦ some (c2 ∷ c1 ∷ c0 ∷ (0xff - (m0 + m1 + m2) / 3) ∷ out)
    ]
convert (suc left) room _ _ = none

-- `size`
abbrev pub bits_size : Bitmap → ℕ
bits_size b = (b.width + 3) / 4 * 4 * b.height * 4

-- from the tests of the sizes on
unfoldable pub extract_bits : Answers → Bitmap → Bitmap → ℕ → Extracted
unfolding convert
extract_bits w mask color maxlen =
    if not (mask.width == color.width)
    then failed
    else if not (mask.height == color.height)
    then failed
    else if ltb maxlen (mask.width * mask.height * 4)
    then failed
    else if not w.mask_buf
    then failed
    else if not w.color_buf
    then failed
    else if not w.dc
    then failed
    else elim w.mask_bits [
      | none ↦ failed
      | some ms ↦ elim w.color_bits [
        | none ↦ failed
        | some cs ↦ elim (convert (bits_size mask / 4) maxlen ms cs) [
          | none ↦ overrun
          | some out ↦ pixels out
        ]
      ]
    ]

unfoldable pub extract_icon : Answers → ℕ → Extracted
extract_icon w maxlen = if not w.info then failed else elim w.mask_bmp [
  | none ↦ failed
  | some mask ↦ elim w.color_bmp [ none ↦ failed | some color ↦ extract_bits w mask color maxlen ]
]
