-- ===== src/Hook/Print/Tests.antt =====
-- The texts of some messages.
use seamlessrdp.Base.{◌≡◌, refl, true, false, none, some, All, arith, codes}
use seamlessrdp.Base.Int.{pos, negsuc}
use seamlessrdp.Vchannel.Serial.{decimal}
use seamlessrdp.Vchannel.Format.{hex_digit, hex_digits, print_hex, print_int}
use seamlessrdp.Hook.{position, listed_title, hello, destroy_group, zero_rect, Style, Blocks}
use seamlessrdp.Hook.Print.{print, command_of, fields_of}
use seamlessrdp.Hook.Print.Short.{IsWellFormed}
use seamlessrdp.Hook.Print.Output.{called, IsOutput-IsWellFormed}
use seamlessrdp.Hook.Window.{Facts}
use seamlessrdp.Hook.Events.{Event, pos_changed, wndproc_hook_proc}

print-position :
    print (position 0x2002A (negsuc 7) (pos 5) (pos 300) (pos 150))
    ≡ record { command = codes "POSITION"; args = codes "0x0002002a,-8,5,300,150,0x00000000" }
unfolding print command_of fields_of print_hex hex_digits hex_digit print_int decimal
print-position = refl

print-destroy_group :
    print (destroy_group 255)
    ≡ record { command = codes "DESTROYGRP"; args = codes "0x000000ff, 0x00000000" }
unfolding print command_of fields_of print_hex hex_digits hex_digit
print-destroy_group = refl

abbrev quiet : Blocks
quiet = record {
  instance_count = pos 1;
  block_move_hwnd = 0;
  block_move_serial = 0;
  block_move = zero_rect;
  blocked_zchange_serial = 0;
  blocked_zchange_0 = 0;
  blocked_zchange_1 = 0;
  blocked_focus_serial = 0;
  blocked_focus = 0;
  blocked_state_serial = 0;
  blocked_state_hwnd = 0;
  blocked_state = negsuc 0;
}

abbrev seen : Style
seen = record {
  visible = true;
  child = false;
  popup = false;
  maximize = false;
  minimize = false;
  modalframe = false;
  topmost = false;
  toolwindow = false;
}

-- its title holds a comma
abbrev editor : Facts
editor = record {
  hwnd = 0x2002A;
  parent = 0;
  desktop = 0x10010;
  owner = 0;
  style = seen;
  pid = 77;
  class = some (codes "Notepad");
  name = codes "Notepad";
  title = codes "a,b";
  large_icon = none;
  small_icon = none;
  place = record { frame = none; outer = some zero_rect };
}

abbrev opened : Event
opened =
    pos_changed
      (record { show = true; hide = false; no_move = false; no_size = false; no_zorder = true })

IsOutput-IsWellFormed_example :
    All IsWellFormed (wndproc_hook_proc true (pos 0) quiet editor opened)
IsOutput-IsWellFormed_example =
    IsOutput-IsWellFormed (wndproc_hook_proc true (pos 0) quiet editor opened)
      (called true (pos 0) quiet editor opened (omega arith))

print-listed_title :
    print (listed_title 0x2002A (codes "Notes"))
    ≡ record { command = codes "TITLE"; args = codes "0x0002002a,Notes,0x0" }
unfolding print command_of fields_of print_hex hex_digits hex_digit
print-listed_title = refl

print-hello : print (hello 3) ≡ record { command = codes "HELLO"; args = codes "0x00000003" }
unfolding print command_of fields_of print_hex hex_digits hex_digit
print-hello = refl
