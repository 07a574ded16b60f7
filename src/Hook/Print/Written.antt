-- ===== src/Hook/Print/Written.antt =====
-- What the hooks and the exported functions of ServerExe/hookdll.c write is well formed.
use seamlessrdp.Base.{
  ℕ, zero, suc, ◌+◌, ◌-◌, ◌*◌, ◌/◌, ◌%◌, ◌≤◌, ◌≡◌, refl, Bool, List, [], ◌∷◌, ◌++◌, Option, none,
  some, Bytes, All, All-append, arith, length, length-append, length-take, take, drop, codes,
}
use seamlessrdp.Shared.Icon.{Extracted, failed, pixels, overrun}
use seamlessrdp.Vchannel.Format.Plain.{IsField, hex_digit-IsPlain, decimal-IsField}
use seamlessrdp.Vchannel.Text.{strfilter_unicode, unicode_to_utf8, convert_buffer_size}
use seamlessrdp.Vchannel.Text.Filter.{IsPlain, strfilter-IsPlain}
use seamlessrdp.Vchannel.Text.Utf8.{length-utf8_loop}
use seamlessrdp.Vchannel.Serial.{decimal}
use seamlessrdp.Hook.{Rect, Style, Msg, Blocks}
use seamlessrdp.Hook.Events.{icon_messages}
use seamlessrdp.Hook.Order.{Window, update_zorder, update_zorders}
use seamlessrdp.Hook.State.{min_max, Shown, min_maxed, hooked, min_maxes}
use seamlessrdp.Hook.Icon.{hex_text, icon_chunk, icon_side, icon_chunks, update_icon}
use seamlessrdp.Hook.Position.{
  Answers, Place, Response, report, update_position, update_positions, check_move, add_borders,
}
use seamlessrdp.Hook.Print.Args.{IsWritable}

pub strfilter_unicode-IsField : (s : List ℕ) → length s ≤ 149 → IsField 447 (strfilter_unicode s)
unfolding strfilter_unicode unicode_to_utf8
strfilter_unicode-IsField s h =
    let (plain, same) = strfilter-IsPlain (unicode_to_utf8 s) in
    record {
      plain = plain;
      short = omega (arith, same, length-utf8_loop s (convert_buffer_size - 1));
    }

hex_text-IsPlain : (bs : Bytes) → All IsPlain (hex_text bs) × (length (hex_text bs) ≡ 2 * length bs)
unfolding hex_text
hex_text-IsPlain [] = (tt, refl)
hex_text-IsPlain (b ∷ bs) =
    let (plain, size) = hex_text-IsPlain bs in
    ((hex_digit-IsPlain (b / 16), (hex_digit-IsPlain (b % 16), plain)), omega (arith, size))

icon_chunks-IsWritable :
    (left i hwnd side : ℕ) (buf : Bytes) → All IsWritable (icon_chunks left i hwnd side buf)
unfolding icon_chunks
icon_chunks-IsWritable zero i hwnd side buf = tt
icon_chunks-IsWritable (suc left) i hwnd side buf =
    let chunk = take icon_chunk (drop (i * icon_chunk) buf) in
    let (plain, size) = hex_text-IsPlain chunk in
    (
      record {
        plain = plain;
        short = omega (arith, size, length-take icon_chunk (drop (i * icon_chunk) buf));
      },
      icon_chunks-IsWritable left (i + 1) hwnd side buf,
    )

pub update_icon-IsWritable :
    (hwnd : ℕ) (icon : Extracted) (large : Bool) → All IsWritable (update_icon hwnd icon large)
unfolding update_icon
update_icon-IsWritable hwnd failed large = tt
update_icon-IsWritable hwnd overrun large = tt
update_icon-IsWritable hwnd (pixels buf) large = ground (
  arith,
  icon_chunks-IsWritable ((length buf + icon_chunk - 1) / icon_chunk) 0 hwnd (icon_side large) buf,
)

pub icon_messages-IsWritable :
    (hwnd : ℕ) (icon : Option Extracted) (large : Bool)
    → All IsWritable (icon_messages hwnd icon large)
icon_messages-IsWritable hwnd none large = tt
icon_messages-IsWritable hwnd (some icon) large = update_icon-IsWritable hwnd icon large

pub update_position-IsWritable :
    (sh : Blocks) (hwnd : ℕ) (w : Answers) → All IsWritable (update_position sh hwnd w)
unfolding update_position report
update_position-IsWritable sh hwnd w = ground arith

pub update_positions-IsWritable :
    (sh : Blocks) (hwnd : ℕ) (ws : List Answers) → All IsWritable (update_positions sh hwnd ws)
unfolding update_positions
update_positions-IsWritable sh hwnd [] = tt
update_positions-IsWritable sh hwnd (w ∷ ws) =
    All-append IsWritable (update_position sh hwnd w) (update_positions sh hwnd ws)
      (update_position-IsWritable sh hwnd w) (update_positions-IsWritable sh hwnd ws)

pub check_move-IsWritable :
    (sh : Blocks) (hwnd : ℕ) (target : Rect) (w : Response)
    → All IsWritable (check_move sh hwnd target w)
unfolding check_move
check_move-IsWritable sh hwnd target w = ground (arith, update_position-IsWritable sh hwnd w.later)

pub add_borders-IsWritable : (w : Answers) (p : Place) → All IsWritable (add_borders w p).1
unfolding add_borders
add_borders-IsWritable w p = ground arith

pub update_zorder-IsWritable :
    (sh : Blocks) (w : Window) (above : List Window) → All IsWritable (update_zorder sh w above)
unfolding update_zorder
update_zorder-IsWritable sh w above = ground arith

pub update_zorders-IsWritable :
    (sh : Blocks) (w : Window) (aboves : List (List Window))
    → All IsWritable (update_zorders sh w aboves)
unfolding update_zorders
update_zorders-IsWritable sh w [] = tt
update_zorders-IsWritable sh w (above ∷ more) =
    All-append IsWritable (update_zorder sh w above) (update_zorders sh w more)
      (update_zorder-IsWritable sh w above) (update_zorders-IsWritable sh w more)

pub min_max-IsWritable :
    (sh : Blocks) (hwnd : ℕ) (style : Style) (show : ℕ)
    → All IsWritable (min_max sh hwnd style show)
unfolding min_max
min_max-IsWritable sh hwnd style show =
    let text : length (codes "Unexpected show: " ++ decimal show) ≤ 255 = omega (
      arith,
      (decimal-IsField show).short,
      length-append (codes "Unexpected show: ") (decimal show),
    ) in
    ground arith

-- what a run of a window hook writes
pub data IsWritten : Shown → Type 0 where
  by_cbt : (style : Style) (show : ℕ) → IsWritten (min_maxed style show)
  by_hook :
      (writes : Blocks → List Msg)
      → ((sh : Blocks) → All IsWritable (writes sh))
      → IsWritten (hooked writes)

pub min_maxes-IsWritable :
    (sh : Blocks) (hwnd : ℕ) (ws : List Shown)
    → All IsWritten ws
    → All IsWritable (min_maxes sh hwnd ws)
unfolding min_maxes
min_maxes-IsWritable sh hwnd [] h = tt
min_maxes-IsWritable sh hwnd (_ ∷ ws) (by_cbt style show, hs) =
    All-append IsWritable (min_max sh hwnd style show) (min_maxes sh hwnd ws)
      (min_max-IsWritable sh hwnd style show) (min_maxes-IsWritable sh hwnd ws hs)
min_maxes-IsWritable sh hwnd (_ ∷ ws) (by_hook writes h, hs) =
    All-append IsWritable (writes sh) (min_maxes sh hwnd ws) (h sh)
      (min_maxes-IsWritable sh hwnd ws hs)
