-- ===== src/Hook/Tests.antt =====
-- The hooks on small examples.
use seamlessrdp.Base.{
  inl, ℕ, zero, suc, ◌<◌, ◌≡◌, ◌≢◌, refl, true, false, List, [], ◌∷◌, ◌++◌, none, some, codes,
  replicate, arith,
}
use seamlessrdp.Base.Int.{pos, negsuc, ◌-ℤ◌}
use seamlessrdp.Shared.{hwnd_to_long, long_to_hwnd}
use seamlessrdp.Shared.Icon.{pixels}
use seamlessrdp.Hook.{destroy, Rect, Style, zchange, ack, Blocks, zero_rect}
use seamlessrdp.Hook.Position.{Place, safe_move_window}
use seamlessrdp.Hook.Position.Borders.{bordered, IsNear}
use seamlessrdp.Hook.Position.Moved.{granted, echoes, safe_move_window-granted}
use seamlessrdp.Hook.State.{
  min_maxed, hooked, min_maxes, min_max, shown_state, current_state, safe_set_state, show_command,
}
use seamlessrdp.Hook.Order.{Window, safe_zchange}
use seamlessrdp.Hook.Order.Behind.{flags_of, Nearest, found, hidden, safe_zchange-answered}
use seamlessrdp.Hook.Icon.{update_icon}
use seamlessrdp.Hook.Icon.Chunks.{IsBytes, collect, update_icon-collect}
use seamlessrdp.Hook.Window.{Facts, is_toplevel}
use seamlessrdp.Hook.Events.{Event, pos_changed, is_console, wndproc_hook_proc}
use seamlessrdp.Hook.Events.Known.{knows, alive, told, wndproc_hook_proc-alive}
use seamlessrdp.Hook.Focus.{Visit}
use seamlessrdp.Hook.Library.{Library, attach, detach}
use seamlessrdp.Hook.Library.Count.{
  Reached, start, next, attaches, detaches, IsCounted, Reached-IsCounted,
}

abbrev fresh : Blocks
fresh = record {
  instance_count = pos 1;
  block_move_hwnd = 0;
  block_move_serial = 0;
  block_move = zero_rect;
  blocked_zchange_serial = 0;
  blocked_zchange_0 = 0;
  blocked_zchange_1 = 0;
  blocked_focus_serial = 0;
  blocked_focus = 0;
  blocked_state_serial = 0;
  blocked_state_hwnd = 0;
  blocked_state = negsuc 0;
}

abbrev plain : Style
plain = record {
  visible = true;
  child = false;
  popup = false;
  maximize = false;
  minimize = false;
  modalframe = false;
  topmost = false;
  toolwindow = false;
}

-- a window of 200 by 100 with borders of 8 pixels left, right and below
abbrev outer_rect : Rect
outer_rect = record { left = pos 10; top = pos 20; right = pos 210; bottom = pos 120 }

abbrev frame_rect : Rect
frame_rect = record { left = pos 18; top = pos 20; right = pos 202; bottom = pos 112 }

abbrev asked : Place
asked = record { x = pos 0; y = pos 5; width = pos 300; height = pos 150 }

near : IsNear outer_rect frame_rect asked
unfolding ◌-ℤ◌
near = record {
  x = record { above = omega arith; below = omega arith };
  y = record { above = omega arith; below = omega arith };
  width = record { above = omega arith; below = omega arith };
  height = record { above = omega arith; below = omega arith };
  border_top = record { above = omega arith; below = omega arith };
  border_left = record { above = omega arith; below = omega arith };
  border_right = record { above = omega arith; below = omega arith };
  border_bottom = record { above = omega arith; below = omega arith };
}

safe_move_window-granted_example :
    (safe_move_window true fresh 7 0x2002A asked
      (bordered outer_rect frame_rect)
      (granted 2 outer_rect frame_rect)).0
    ≡ echoes 2 outer_rect frame_rect 0x2002A asked ++ ack 7 ∷ []
unfolding hwnd_to_long long_to_hwnd
safe_move_window-granted_example =
    safe_move_window-granted 2 fresh 7 0x2002A outer_rect frame_rect asked
      (granted 2 outer_rect frame_rect) near refl (λ q. refl)

-- A window hook writes before the state is acknowledged, and another one behind.
minimized :
    (safe_set_state true fresh 8 0x2002A (pos 1) plain (λ q.
      hooked (λ sh. zchange 0x2002A 0 0 ∷ [])
      ∷ min_maxed plain q
      ∷ hooked (λ sh. destroy 0x30030 ∷ [])
      ∷ [])).0
    ≡ zchange 0x2002A 0 0 ∷ ack 8 ∷ destroy 0x30030 ∷ []
unfolding safe_set_state min_maxes min_max shown_state show_command current_state hwnd_to_long
    long_to_hwnd
minimized = refl

abbrev main_window : Window
main_window = record { hwnd = 0x2002A; style = plain }

abbrev palette : Window
palette = record { hwnd = 0x30030; style = record plain { topmost = true } }

abbrev edge : Window
edge = record { hwnd = 0x40040; style = record plain { visible = false } }

abbrev neighbour : Window
neighbour = record { hwnd = 0x50050; style = plain }

edge-Nearest : Nearest (edge ∷ neighbour ∷ []) neighbour.hwnd
edge-Nearest =
    found (edge ∷ []) neighbour [] (hidden refl, tt) (record { visible = refl; own = inl refl })

safe_zchange-answered_example :
    (neighbour.hwnd ≡ neighbour.hwnd
      → (safe_zchange true fresh 9 main_window neighbour (λ q. (edge ∷ neighbour ∷ []) ∷ [])).0
        ≡ ack 9 ∷ [])
    × (neighbour.hwnd ≢ neighbour.hwnd
        → (safe_zchange true fresh 9 main_window neighbour (λ q. (edge ∷ neighbour ∷ []) ∷ [])).0
          ≡ zchange (hwnd_to_long 0x2002A) (hwnd_to_long neighbour.hwnd) (flags_of main_window)
            ∷ [])
unfolding hwnd_to_long long_to_hwnd
safe_zchange-answered_example =
    safe_zchange-answered fresh 9 main_window neighbour (λ q. (edge ∷ neighbour ∷ []) ∷ [])
      (edge ∷ neighbour ∷ []) neighbour.hwnd refl refl refl edge-Nearest

replicate-IsBytes : (n b : ℕ) → b < 256 → IsBytes (replicate n b)
replicate-IsBytes zero b h = tt
replicate-IsBytes (suc n) b h = (h, replicate-IsBytes n b h)

-- a small icon of one colour
abbrev dark_icon : List ℕ
dark_icon = replicate 1024 0x40

update_icon-collect_example :
    collect 0 (update_icon 0x2002A (pixels dark_icon) false) ≡ some dark_icon
update_icon-collect_example =
    update_icon-collect 0x2002A false dark_icon (replicate-IsBytes 1024 0x40 (omega arith)) refl

abbrev main_facts : Facts
main_facts = record {
  hwnd = 0x2002A;
  parent = 0x10010;
  desktop = 0x10010;
  owner = 0;
  style = plain;
  pid = 1234;
  class = some (codes "Notepad");
  name = codes "Notepad";
  title = codes "Untitled";
  large_icon = none;
  small_icon = some (pixels dark_icon);
  place = bordered outer_rect frame_rect;
}

abbrev shown : Event
shown =
    pos_changed
      (record { show = true; hide = false; no_move = false; no_size = false; no_zorder = true })

wndproc_hook_proc-alive_example :
    (is_toplevel main_facts ≡ true
      → is_console main_facts.class ≡ false
      → knows 0x2002A false (wndproc_hook_proc true (pos 0) fresh main_facts shown)
        ≡ told (hwnd_to_long 0x2002A) 0x2002A (alive plain shown false) false)
    × ((is_toplevel main_facts ≡ false → wndproc_hook_proc true (pos 0) fresh main_facts shown ≡ [])
        × (is_console main_facts.class ≡ true
            → wndproc_hook_proc true (pos 0) fresh main_facts shown ≡ []))
wndproc_hook_proc-alive_example =
    wndproc_hook_proc-alive 0x2002A false (pos 0) fresh main_facts shown refl

abbrev visit : Visit
visit = record { window = main_facts; foreground = 0x50050 }

-- a process that attaches and detaches again
abbrev process : Library
process = (attach true true true (pos 0)).0

attached_once : Reached (process ∷ [], (attach true true true (pos 0)).1)
attached_once = next _ _ start (attaches true true true [] (pos 0))

Reached-IsCounted_example :
    IsCounted ([], (detach 1234 process (attach true true true (pos 0)).1).1)
Reached-IsCounted_example =
    Reached-IsCounted _ (next _ _ attached_once (detaches 1234 [] process [] _))
