-- ===== src/Vchannel/Text/Tests.antt =====
-- Titles with a comma, with accents and with wide characters.
use seamlessrdp.Base.{
  ℕ, zero, suc, ◌+◌, ◌≤◌, ◌≡◌, refl, inl, List, [], ◌∷◌, codes, All, arith, length, replicate,
}
use seamlessrdp.Vchannel.Text.{
  strfilter, unicode_to_utf8, utf8_loop, encode_two, encode_three, convert_buffer_size,
}
use seamlessrdp.Vchannel.Text.Filter.{Filtered, strfilter-Filtered}
use seamlessrdp.Vchannel.Text.Units.{IsUtf8, basic}
use seamlessrdp.Vchannel.Text.Utf8.{IsWide, unicode_to_utf8-IsUtf8}

strfilter_title : strfilter (codes "a,b\tc") ≡ codes "a_b_c"
unfolding strfilter
strfilter_title = refl

-- "é€" and half a surrogate pair
abbrev title : List ℕ
title = 0xE9 ∷ 0x20AC ∷ 0xD83D ∷ []

title-utf8 : unicode_to_utf8 title ≡ 0xC3 ∷ 0xA9 ∷ 0xE2 ∷ 0x82 ∷ 0xAC ∷ []
unfolding unicode_to_utf8 utf8_loop encode_two encode_three
title-utf8 = refl

strfilter-Filtered_example : Filtered (codes "a,b") (strfilter (codes "a,b"))
strfilter-Filtered_example = strfilter-Filtered (codes "a,b")

unicode_to_utf8-IsUtf8_example :
    IsUtf8 (basic title) (unicode_to_utf8 title)
    × (length (unicode_to_utf8 title) + 1 ≤ convert_buffer_size)
unicode_to_utf8-IsUtf8_example = unicode_to_utf8-IsUtf8 title (omega arith) (omega arith)

wide : (n : ℕ) → All IsWide (replicate n 0x20AC)
wide zero = tt
wide (suc n) = ((omega arith, inl (omega arith)), wide n)
