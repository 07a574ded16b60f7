-- ===== src/Shell/Request/Tests.antt =====
-- Requests of a client, from the line to the acknowledgement.
use seamlessrdp.Base.{◌≡◌, refl, true, false, List, [], ◌∷◌, some, none, Bytes, codes, All, arith}
use seamlessrdp.Base.Int.{pos, negsuc}
use seamlessrdp.Shared.{hwnd_to_long, long_to_hwnd}
use seamlessrdp.Shell.Escape.Percent.{literals}
use seamlessrdp.Shell.Command.{set_state, move_window, zchange, focus}
use seamlessrdp.Shell.Command.Carried.{IsClean}
use seamlessrdp.Shell.Request.{Windows, serve_lines}
use seamlessrdp.Shell.Request.Acked.{
  IsRequest, shown, moved, ordered, focused, no_more, next, serve_lines-acked,
}
use seamlessrdp.Shell.Request.Reported.{serve_lines-reports}
use seamlessrdp.Vchannel.Serial.{decimal, decimal_onto}
use seamlessrdp.Vchannel.Format.{print_hex, hex_digits, hex_digit, print_int}
use seamlessrdp.Hook as Hook
use seamlessrdp.Hook.{Rect, Style, Blocks, acked, zero_rect}
use seamlessrdp.Hook.Position.{Answers, seen_rect, report, update_position}
use seamlessrdp.Hook.State.{
  Shown, min_maxed, hooked, show_command, shown_state, sw_maximize, min_max,
}
use seamlessrdp.Hook.State.Acked.{IsQuiet, quiet}
use seamlessrdp.Hook.Position.Once.{acked-update_position}
use seamlessrdp.Hook.Order.{Window, window_above, update_zorder, insert_after}
use seamlessrdp.Hook.Order.Behind.{flags_of}
use seamlessrdp.Hook.Window.{Facts, is_toplevel}

abbrev fresh : Blocks
fresh = record {
  instance_count = pos 1;
  block_move_hwnd = 0;
  block_move_serial = 0;
  block_move = zero_rect;
  blocked_zchange_serial = 0;
  blocked_zchange_0 = 0;
  blocked_zchange_1 = 0;
  blocked_focus_serial = 0;
  blocked_focus = 0;
  blocked_state_serial = 0;
  blocked_state_hwnd = 0;
  blocked_state = negsuc 0;
}

abbrev plain : Style
plain = record {
  visible = true;
  child = false;
  popup = false;
  maximize = false;
  minimize = false;
  modalframe = false;
  topmost = false;
  toolwindow = false;
}

abbrev frame_rect : Rect
frame_rect = record { left = pos 10; top = pos 20; right = pos 210; bottom = pos 120 }

abbrev place_of : Answers
place_of = record { frame = some frame_rect; outer = some frame_rect }

abbrev main_facts : Facts
main_facts = record {
  hwnd = 0x2002A;
  parent = 0x10010;
  desktop = 0x10010;
  owner = 0;
  style = plain;
  pid = 1234;
  class = some (codes "Notepad");
  name = codes "Notepad";
  title = codes "Untitled";
  large_icon = none;
  small_icon = none;
  place = place_of;
}

-- Inside `ShowWindow` the window hooks report the window's place.
abbrev moved_meanwhile : Shown
moved_meanwhile = hooked (λ sh. update_position sh 0x2002A place_of)

moved_meanwhile-IsQuiet : IsQuiet moved_meanwhile
moved_meanwhile-IsQuiet =
    quiet (λ sh. update_position sh 0x2002A place_of)
      (λ sh. acked-update_position sh 0x2002A place_of)

-- Windows puts a window behind the one that it is told, and leaves its place as it is.
abbrev desk : Windows
desk = record {
  style = λ hwnd. plain;
  place = λ hwnd. place_of;
  shows = λ hwnd show. min_maxed plain show ∷ moved_meanwhile ∷ [];
  moves = λ hwnd p. record { notified = place_of ∷ []; outer = some frame_rect; later = place_of };
  stacks = λ hwnd behind. (record { hwnd = behind; style = plain } ∷ []) ∷ [];
  visits = λ hwnd. record { window = main_facts; foreground = 0 } ∷ [];
}

abbrev state_line : Bytes
state_line = codes "STATE,7,0x0002002a,2,0x00000000"

abbrev move_line : Bytes
move_line = codes "POSITION,8,0x0002002a,-4,0,300,150,0x00000000"

abbrev order_line : Bytes
order_line = codes "ZCHANGE,9,0x0002002a,0x00010010,0x00000000"

abbrev focus_line : Bytes
focus_line = codes "FOCUS,10,0x0002002a,0x00000000"

abbrev lines : List (Windows × Bytes)
lines = (desk, state_line) ∷ (desk, move_line) ∷ (desk, order_line) ∷ (desk, focus_line) ∷ []

flags_field : All IsClean (codes "0x00000000" ∷ [])
flags_field = ((omega arith, omega arith), tt)

state_line-IsRequest : IsRequest desk state_line 7
unfolding decimal decimal_onto print_hex hex_digits hex_digit print_int long_to_hwnd hwnd_to_long
    show_command
state_line-IsRequest = record {
  call = set_state 7 0x2002A (pos 2);
  extra = codes "0x00000000" ∷ [];
  sent = (omega arith, omega arith, omega arith);
  clean = flags_field;
  encodes = literals state_line (omega arith);
  few = omega arith;
  obeyed =
      shown 7 0x2002A (pos 2) refl refl
        (λ q. record {
          before = [];
          behind = moved_meanwhile ∷ [];
          order = refl;
          quiet_before = tt;
          quiet_behind = (moved_meanwhile-IsQuiet, tt);
        })
        (λ e. ground (arith, e));
}

move_line-IsRequest : IsRequest desk move_line 8
unfolding decimal decimal_onto print_hex hex_digits hex_digit print_int long_to_hwnd
move_line-IsRequest = record {
  call = move_window 8 0x2002A (negsuc 3) (pos 0) (pos 300) (pos 150);
  extra = codes "0x00000000" ∷ [];
  sent = (omega arith, omega arith, omega arith, omega arith, omega arith, omega arith);
  clean = flags_field;
  encodes = literals move_line (omega arith);
  few = omega arith;
  obeyed = moved 8 0x2002A (negsuc 3) (pos 0) (pos 300) (pos 150);
}

order_line-IsRequest : IsRequest desk order_line 9
unfolding decimal decimal_onto print_hex hex_digits hex_digit print_int long_to_hwnd hwnd_to_long
    insert_after window_above
order_line-IsRequest = record {
  call = zchange 9 0x2002A 0x10010;
  extra = codes "0x00000000" ∷ [];
  sent = (omega arith, omega arith, omega arith);
  clean = flags_field;
  encodes = literals order_line (omega arith);
  few = omega arith;
  obeyed = ordered 9 0x2002A 0x10010 refl refl refl;
}

focus_line-IsRequest : IsRequest desk focus_line 10
unfolding decimal decimal_onto print_hex hex_digits hex_digit print_int long_to_hwnd is_toplevel
focus_line-IsRequest = record {
  call = focus 10 0x2002A;
  extra = codes "0x00000000" ∷ [];
  sent = (omega arith, omega arith);
  clean = flags_field;
  encodes = literals focus_line (omega arith);
  few = omega arith;
  obeyed = focused 10 0x2002A refl;
}

serve_lines-acked_example : acked (serve_lines true fresh lines).0 ≡ 7 ∷ 8 ∷ 9 ∷ 10 ∷ []
serve_lines-acked_example = serve_lines-acked fresh lines (7 ∷ 8 ∷ 9 ∷ 10 ∷ []) (
    next desk state_line 7 _ _ state_line-IsRequest (
      next desk move_line 8 _ _ move_line-IsRequest (
        next desk order_line 9 _ _ order_line-IsRequest
          (next desk focus_line 10 _ _ focus_line-IsRequest no_more))))

abbrev main_window : Window
main_window = record { hwnd = 0x2002A; style = plain }

serve_lines-reports_example :
    (update_position (serve_lines true fresh lines).1 0x2002A place_of
      ≡ report 0x2002A frame_rect ∷ [])
    × (min_max (serve_lines true fresh lines).1 0x2002A plain sw_maximize
        ≡ Hook.state (hwnd_to_long 0x2002A) (pos 2) ∷ [])
    × (update_zorder (serve_lines true fresh lines).1 main_window []
        ≡ Hook.zchange
            (hwnd_to_long 0x2002A)
            (hwnd_to_long (window_above []))
            (flags_of main_window)
          ∷ [])
unfolding seen_rect shown_state
serve_lines-reports_example =
    serve_lines-reports true fresh lines main_window place_of frame_rect sw_maximize (pos 2) []
      (record { move = refl; order = refl; focused = refl; state = refl }) (omega arith) refl refl
      refl
