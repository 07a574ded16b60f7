-- ===== src/Hook/Events.antt =====
-- `wndproc_hook_proc` and `wndprocret_hook_proc` of ServerExe/hookdll.c: what the client is told when a
-- window gets a message.
pub mod Known
use Prim.Native.Nat.{bit_or}
use seamlessrdp.Base.{
  ℕ, Bool, true, false, not, ◌&&◌, ◌||◌, List, [], ◌∷◌, ◌++◌, Option, none, some, Bytes, codes,
  ◌==◌, if◌then◌else◌,
}
use seamlessrdp.Base.Int.{ℤ, is_negative}
use seamlessrdp.Shell.Command.{equal}
use seamlessrdp.Shared.{hwnd_to_long}
use seamlessrdp.Shared.Icon.{Extracted}
use seamlessrdp.Vchannel.Format.{print_int, to_int}
use seamlessrdp.Vchannel.Text.{strfilter_unicode}
use seamlessrdp.Hook.{
  Style, Msg, create, title, state, destroy, del_icon, ack, debug, Blocks, create_modal,
  create_topmost,
}
use seamlessrdp.Hook.Position.{update_position}
use seamlessrdp.Hook.State.{current_state}
use seamlessrdp.Hook.Order.{Window, update_zorder}
use seamlessrdp.Hook.Icon.{update_icon}
use seamlessrdp.Hook.Window.{Facts, is_toplevel, is_menu, get_parent}

-- the flags of a WINDOWPOS
pub record PosFlags : Type 0 where
  pub show : Bool
  pub hide : Bool
  pub no_move : Bool
  pub no_size : Bool
  pub no_zorder : Bool

-- the messages of Windows that the hooks act on
pub data Event : Type 0 where
  pos_changed : PosFlags → Event
  icon_set : ℕ → Option Extracted → Event
  sized : Event
  moved : Event
  destroyed : Event
  text_set : Event
  focus_asked : Event
  other : Event

abbrev pub is_console : Option Bytes → Bool
is_console none = false
is_console (some class) = equal class (codes "ConsoleWindowClass")

abbrev pub icon_messages : ℕ → Option Extracted → Bool → List Msg
icon_messages hwnd none large = []
icon_messages hwnd (some icon) large = update_icon hwnd icon large

abbrev pub create_flags : Style → ℕ
create_flags s =
    bit_or (if s.modalframe then create_modal else 0) (if s.topmost then create_topmost else 0)

-- the branch SWP_SHOWWINDOW
unfoldable pub show_window : Blocks → Facts → List Msg
show_window sh w =
    let h = hwnd_to_long w.hwnd in
    create h w.pid (hwnd_to_long (get_parent w)) (create_flags w.style)
    ∷ title h (strfilter_unicode w.title)
    ∷ (icon_messages w.hwnd w.large_icon true
        ++ (icon_messages w.hwnd w.small_icon false
            ++ (update_position sh w.hwnd w.place ++ state h (current_state w.style) ∷ [])))

abbrev pub is_out : Style → Bool
is_out s = not s.visible || s.minimize

unfoldable pub report_place : Blocks → Facts → List Msg
report_place sh w = if is_out w.style then [] else update_position sh w.hwnd w.place

-- the case WM_WINDOWPOSCHANGED
unfoldable pub window_pos_changed : Blocks → Facts → PosFlags → List Msg
unfolding show_window report_place
window_pos_changed sh w f =
    (if f.show then show_window sh w else [])
    ++ ((if f.hide then destroy (hwnd_to_long w.hwnd) ∷ [] else [])
        ++ (if f.no_move && f.no_size then [] else report_place sh w))

-- ICON_BIG; ICON_SMALL and 2
unfoldable pub icon_changed : Facts → ℕ → Option Extracted → List Msg
icon_changed w kind icon =
    if kind == 1
    then elim icon [
      | some i ↦ update_icon w.hwnd i true
      | none ↦ del_icon (hwnd_to_long w.hwnd) 32 ∷ []
    ]
    else if kind == 0 || kind == 2
    then elim icon [
      | some i ↦ update_icon w.hwnd i false
      | none ↦ del_icon (hwnd_to_long w.hwnd) 16 ∷ []
    ]
    else debug (codes "Weird icon size " ++ print_int (to_int kind)) ∷ []

-- the `switch`
unfoldable pub on_call : Blocks → Facts → Event → List Msg
unfolding window_pos_changed icon_changed report_place
on_call sh w (pos_changed f) = window_pos_changed sh w f
on_call sh w (icon_set kind icon) = if not w.style.visible then [] else icon_changed w kind icon
on_call sh w sized = report_place sh w
on_call sh w moved = report_place sh w
on_call sh w destroyed = if not w.style.visible then [] else destroy (hwnd_to_long w.hwnd) ∷ []
on_call sh w _ = []

unfoldable pub wndproc_hook_proc : Bool → ℤ → Blocks → Facts → Event → List Msg
unfolding on_call
wndproc_hook_proc initialized code sh w e =
    if not initialized
    then []
    else if is_negative code
    then []
    else if not (is_toplevel w)
    then []
    else if is_console w.class
    then []
    else on_call sh w e

-- `above` are the windows above, as `update_zorder` asks for them.
unfoldable pub on_return : Blocks → Facts → List Window → Event → List Msg
on_return sh w above (pos_changed f) =
    if is_out w.style
    then []
    else if f.no_zorder
    then []
    else update_zorder sh (record { hwnd = w.hwnd; style = w.style }) above
on_return sh w above text_set =
    if not w.style.visible then [] else title (hwnd_to_long w.hwnd) (strfilter_unicode w.title) ∷ []
on_return sh w above (icon_set kind icon) =
    if not w.style.visible then [] else icon_messages w.hwnd w.small_icon false
on_return sh w above _ = []

-- The request for the focus, the message `g_wm_seamless_focus`; `foreground` is the result of
-- `GetForegroundWindow`. The flag tells whether `SetForegroundWindow` is called.
unfoldable pub on_focus : Blocks → Facts → ℕ → Event → Bool × List Msg
on_focus sh w foreground focus_asked =
    (not (foreground == w.hwnd) && not (is_menu w.style), ack sh.blocked_focus_serial ∷ [])
on_focus sh w foreground _ = (false, [])

unfoldable pub wndprocret_hook_proc :
    Bool → ℤ → Blocks → Facts → List Window → ℕ → Event → Bool × List Msg
unfolding on_return on_focus
wndprocret_hook_proc initialized code sh w above foreground e =
    let (raised, out) = on_focus sh w foreground e in
    if not initialized
    then (false, [])
    else if is_negative code
    then (false, [])
    else if not (is_toplevel w)
    then (false, [])
    else (raised, on_return sh w above e ++ out)
