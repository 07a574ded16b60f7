-- ===== src/Hook/Print/Called.antt =====
-- What the hooks of a window's messages write, `wndproc_hook_proc` and `wndprocret_hook_proc`, is well
-- formed.
use seamlessrdp.Base.{
  ℕ, ◌≤◌, Bool, true, false, List, [], ◌∷◌, ◌++◌, Option, none, some, All, All-append, arith,
  length, length-append, codes, if◌then◌else◌,
}
use seamlessrdp.Base.Int.{ℤ}
use seamlessrdp.Shared.{hwnd_to_long}
use seamlessrdp.Shared.Icon.{Extracted}
use seamlessrdp.Vchannel.Format.{print_int, to_int}
use seamlessrdp.Vchannel.Format.Plain.{print_int-IsField}
use seamlessrdp.Hook.{Msg, destroy, Blocks}
use seamlessrdp.Hook.Window.{Facts}
use seamlessrdp.Hook.Position.{update_position}
use seamlessrdp.Hook.Order.{Window}
use seamlessrdp.Hook.Events.{
  Event, pos_changed, icon_set, sized, moved, destroyed, text_set, focus_asked, other, PosFlags,
  icon_messages, show_window, report_place, window_pos_changed, icon_changed, on_call,
  wndproc_hook_proc, on_return, on_focus, wndprocret_hook_proc,
}
use seamlessrdp.Hook.Print.Args.{IsWritable}
use seamlessrdp.Hook.Print.Written.{
  strfilter_unicode-IsField, update_icon-IsWritable, icon_messages-IsWritable,
  update_position-IsWritable, update_zorder-IsWritable,
}

-- The title is no longer than the array that it is read into.
abbrev pub IsTitled : Facts → Type 0
IsTitled w = length w.title ≤ 149

pub both :
    (out rest : List Msg) → All IsWritable out → All IsWritable rest → All IsWritable (out ++ rest)
both out rest h k = All-append IsWritable out rest h k

show_window-IsWritable : (sh : Blocks) (w : Facts) → IsTitled w → All IsWritable (show_window sh w)
unfolding show_window
show_window-IsWritable sh w t = (
  tt,
  (
    strfilter_unicode-IsField w.title t,
    both (icon_messages w.hwnd w.large_icon true) _
        (icon_messages-IsWritable w.hwnd w.large_icon true)
        (both (icon_messages w.hwnd w.small_icon false) _
          (icon_messages-IsWritable w.hwnd w.small_icon false)
          (both (update_position sh w.hwnd w.place) _ (update_position-IsWritable sh w.hwnd w.place)
            (tt, tt))),
  ),
)

report_place-IsWritable : (sh : Blocks) (w : Facts) → All IsWritable (report_place sh w)
unfolding report_place
report_place-IsWritable sh w = ground (arith, update_position-IsWritable sh w.hwnd w.place)

window_pos_changed-IsWritable :
    (sh : Blocks) (w : Facts) (f : PosFlags)
    → IsTitled w
    → All IsWritable (window_pos_changed sh w f)
unfolding window_pos_changed
window_pos_changed-IsWritable sh w f t =
    both (if f.show then show_window sh w else []) _ (ground (arith, show_window-IsWritable sh w t))
      (both (if f.hide then destroy (hwnd_to_long w.hwnd) ∷ [] else []) _ (ground arith)
        (ground (arith, report_place-IsWritable sh w)))

weird-IsShort : (kind : ℕ) → length (codes "Weird icon size " ++ print_int (to_int kind)) ≤ 255
weird-IsShort kind =
    let number = print_int (to_int kind) in
    omega (
      arith,
      (print_int-IsField (to_int kind)).short,
      length-append (codes "Weird icon size ") number,
    )

icon_changed-IsWritable :
    (w : Facts) (kind : ℕ) (icon : Option Extracted) → All IsWritable (icon_changed w kind icon)
unfolding icon_changed
icon_changed-IsWritable w kind none = ground (arith, weird-IsShort kind)
icon_changed-IsWritable w kind (some i) = ground (
  arith,
  weird-IsShort kind,
  update_icon-IsWritable w.hwnd i true,
  update_icon-IsWritable w.hwnd i false,
)

on_call-IsWritable :
    (sh : Blocks) (w : Facts) (e : Event) → IsTitled w → All IsWritable (on_call sh w e)
unfolding on_call
on_call-IsWritable sh w (pos_changed f) t = window_pos_changed-IsWritable sh w f t
on_call-IsWritable sh w (icon_set kind icon) t = ground (arith, icon_changed-IsWritable w kind icon)
on_call-IsWritable sh w sized t = report_place-IsWritable sh w
on_call-IsWritable sh w moved t = report_place-IsWritable sh w
on_call-IsWritable sh w destroyed t = ground arith
on_call-IsWritable sh w text_set t = tt
on_call-IsWritable sh w focus_asked t = tt
on_call-IsWritable sh w other t = tt

pub wndproc_hook_proc-IsWritable :
    (initialized : Bool) (code : ℤ) (sh : Blocks) (w : Facts) (e : Event)
    → IsTitled w
    → All IsWritable (wndproc_hook_proc initialized code sh w e)
unfolding wndproc_hook_proc
wndproc_hook_proc-IsWritable initialized code sh w e t = ground (arith, on_call-IsWritable sh w e t)

on_return-IsWritable :
    (sh : Blocks) (w : Facts) (above : List Window) (e : Event)
    → IsTitled w
    → All IsWritable (on_return sh w above e)
unfolding on_return
on_return-IsWritable sh w above (pos_changed f) t =
    ground (arith, update_zorder-IsWritable sh (record { hwnd = w.hwnd; style = w.style }) above)
on_return-IsWritable sh w above text_set t = ground (arith, strfilter_unicode-IsField w.title t)
on_return-IsWritable sh w above (icon_set kind icon) t =
    ground (arith, icon_messages-IsWritable w.hwnd w.small_icon false)
on_return-IsWritable sh w above sized t = tt
on_return-IsWritable sh w above moved t = tt
on_return-IsWritable sh w above destroyed t = tt
on_return-IsWritable sh w above focus_asked t = tt
on_return-IsWritable sh w above other t = tt

on_focus-IsWritable :
    (sh : Blocks) (w : Facts) (foreground : ℕ) (e : Event)
    → All IsWritable (on_focus sh w foreground e).1
unfolding on_focus
on_focus-IsWritable sh w foreground (pos_changed f) = tt
on_focus-IsWritable sh w foreground (icon_set kind icon) = tt
on_focus-IsWritable sh w foreground sized = tt
on_focus-IsWritable sh w foreground moved = tt
on_focus-IsWritable sh w foreground destroyed = tt
on_focus-IsWritable sh w foreground text_set = tt
on_focus-IsWritable sh w foreground focus_asked = (tt, tt)
on_focus-IsWritable sh w foreground other = tt

pub wndprocret_hook_proc-IsWritable :
    (initialized : Bool) (code : ℤ) (sh : Blocks) (w : Facts) (above : List Window) (foreground : ℕ)
    (e : Event)
    → IsTitled w
    → All IsWritable (wndprocret_hook_proc initialized code sh w above foreground e).1
unfolding wndprocret_hook_proc
wndprocret_hook_proc-IsWritable initialized code sh w above foreground e t =
    let asked : All IsWritable (on_focus sh w foreground e).1 =
      on_focus-IsWritable sh w foreground e in
    let all =
      both (on_return sh w above e) (on_focus sh w foreground e).1
        (on_return-IsWritable sh w above e t) asked in
    ground arith
