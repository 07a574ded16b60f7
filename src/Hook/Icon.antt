-- ===== src/Hook/Icon.antt =====
-- `update_icon` of ServerExe/hookdll.c: an icon, in messages of at most 400 of its bytes each.
pub mod Chunks
use seamlessrdp.Base.{
  ℕ, zero, suc, ◌+◌, ◌-◌, ◌*◌, ◌/◌, ◌%◌, Bool, true, false, not, List, [], ◌∷◌, Bytes, codes, ltb,
  ◌==◌, if◌then◌else◌, length, take, drop,
}
use seamlessrdp.Vchannel.Format.{hex_digit}
use seamlessrdp.Shared.{hwnd_to_long}
use seamlessrdp.Shared.Icon.{Extracted, failed, pixels, overrun}
use seamlessrdp.Hook.{Msg, set_icon, debug}

-- ICON_CHUNK
abbrev pub icon_chunk : ℕ
icon_chunk = 400

-- `asciibuf`: "%02x" for each byte, the NUL of the last one behind them
unfoldable pub hex_text : Bytes → Bytes
unfolding hex_digit
hex_text [] = []
hex_text (b ∷ bs) = hex_digit (b / 16) ∷ hex_digit (b % 16) ∷ hex_text bs

-- The loop over the chunks: `left` of them from number `i` on.
unfoldable pub icon_chunks : ℕ → ℕ → ℕ → ℕ → Bytes → List Msg
unfolding hex_text
icon_chunks zero i hwnd side buf = []
icon_chunks (suc left) i hwnd side buf =
    set_icon (hwnd_to_long hwnd) i side (hex_text (take icon_chunk (drop (i * icon_chunk) buf)))
    ∷ icon_chunks left (i + 1) hwnd side buf

abbrev pub icon_side : Bool → ℕ
icon_side large = if large then 32 else 16

-- `icon` is what `extract_icon` returns for a buffer of 32 * 32 * 4 bytes; an overrun there has no
-- further course.
unfoldable pub update_icon : ℕ → Extracted → Bool → List Msg
unfolding icon_chunks
update_icon hwnd failed large = []
update_icon hwnd overrun large = []
update_icon hwnd (pixels buf) large =
    let side = icon_side large in
    let chunks = (length buf + icon_chunk - 1) / icon_chunk in
    if length buf == 0
    then []
    else if not (length buf == side * side * 4)
    then debug (codes "Unexpected icon size.") ∷ []
    else icon_chunks chunks 0 hwnd side buf
