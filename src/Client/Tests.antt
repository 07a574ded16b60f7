-- ===== src/Client/Tests.antt =====
-- A window that is in the table moves, and one that is not is destroyed.
use seamlessrdp.Base.{
  ℕ, ◌≡◌, refl, sym, true, false, inl, inr, List, [], ◌∷◌, none, some, Bytes, codes, arith, length,
  ◌==◌, Bool-cases,
}
use seamlessrdp.Base.Int.{pos, negsuc}
use seamlessrdp.Shell.Command.{equal}
use seamlessrdp.Shell.Command.Equal.{equal-true}
use seamlessrdp.Client.{WindowData, new_window_data}
use seamlessrdp.Client.Parse.{read_message, copy_data, before_nul}
use seamlessrdp.Client.Parse.Fields.{Corners, print_message, move_size, name_of, IsValue}
use seamlessrdp.Client.Parse.Numbers.{cut}
use seamlessrdp.Client.Parse.RoundTrip.{read_message-print}
use seamlessrdp.Client.Clip.{
  Surroundings, data_received, Objects, Clipper, find_process_main_window, is_main_window,
  do_clipping, virtual_channel_open_event,
}
use seamlessrdp.Client.Sound.{IsSound}
use seamlessrdp.Client.Sound.Outcome.{Outcome, concerns}
use seamlessrdp.Client.Life.{Reached, entered, virtual_channel_entry, Reached-Outcome}
use seamlessrdp.Client.Shown.{Clips, do_clipping-Clips}
use seamlessrdp.Client.Samples.{strtok, strtok-Splits, pairs, pairs-Maps}

abbrev place : Corners
place = record { x1 = negsuc 4; y1 = pos 20; x2 = pos 300; y2 = pos 200 }

abbrev seven : Bytes
seven = codes "7"

seven-IsValue : IsValue seven
seven-IsValue = record {
  no_equals = record { one = omega arith; some_bytes = λ e. cc };
  no_semicolon = record { one = omega arith; some_bytes = λ e. cc };
}

read_message-print_example :
    read_message strtok (print_message move_size seven seven place) ≡ record {
      wid = record new_window_data {
        id = seven;
        title = seven;
        x1 = cut place.x1;
        y1 = cut place.y1;
        x2 = cut place.x2;
        y2 = cut place.y2;
      };
      message_type = name_of move_size;
      min_max_type = pos 0;
    }
read_message-print_example =
    read_message-print strtok strtok-Splits move_size seven seven place seven-IsValue seven-IsValue
      (omega arith) (omega arith) (omega arith) (omega arith)

abbrev editor : WindowData
editor = record new_window_data { id = seven; x2 = pos 100; y2 = pos 50; taskbar = some 500 }

abbrev objects : Objects
objects = some editor ∷ []

abbrev table : List (Bytes × ℕ)
table = (seven, 0) ∷ []

table-IsSound : IsSound pairs table objects
table-IsSound k p found = elim (Bool-cases (equal k seven)) [
  | inl same ↦
      let first : some 0 ≡ some p = rw same at found in
      let zero_there : p ≡ 0 = cc first in
      rw zero_there (record {
        window = editor;
        handle = 500;
        here = refl;
        named = sym (equal-true k seven same);
        taskbar = refl;
      })
  | inr differs ↦ absurd (cc (rw differs at found))
]

abbrev surroundings : Surroundings
surroundings = record {
  process_id = 9;
  windows =
      record { hwnd = 70; thread_id = 4; proc_id = 9; sysmenu = false }
      ∷ record { hwnd = 71; thread_id = 5; proc_id = 9; sysmenu = true }
      ∷ [];
  right = pos 800;
  bottom = pos 600;
  taskbar = 501;
}

find-surroundings : find_process_main_window 9 surroundings.windows ≡ some 71
unfolding find_process_main_window is_main_window
find-surroundings = refl

abbrev unknown_text : Bytes
unknown_text = codes "MSG=HSHELL_WINDOWDESTROYED;ID=8"

abbrev entered_clipper : Clipper pairs
entered_clipper = record { table = []; objects = []; main_window = none }

entered_clipper-Reached : Reached pairs strtok entered_clipper
unfolding virtual_channel_entry
entered_clipper-Reached = entered true true

Reached-Outcome_example :
    IsSound pairs [] []
    × Outcome pairs entered_clipper
        (concerns data_received (length unknown_text == 31))
        (read_message strtok unknown_text)
        (virtual_channel_open_event pairs strtok surroundings data_received unknown_text 31
          entered_clipper)
unfolding copy_data before_nul
Reached-Outcome_example =
    Reached-Outcome pairs pairs-Maps strtok entered_clipper surroundings data_received unknown_text
      unknown_text 31 entered_clipper-Reached refl

do_clipping-Clips_example : Clips pairs surroundings table objects (
    do_clipping pairs surroundings
      (record { table = table; objects = objects; main_window = none }))
do_clipping-Clips_example =
    do_clipping-Clips pairs pairs-Maps surroundings table objects table-IsSound none
