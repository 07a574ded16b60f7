-- ===== src/Hook/Events/Known.antt =====
-- Which windows the client knows after what the hooks have told it.
use seamlessrdp.Base.{
  ℕ, zero, suc, ◌≡◌, refl, Bool, true, false, ◌&&◌, List, [], ◌∷◌, ◌++◌, Option, none, some,
  if◌then◌else◌, ◌==◌, arith,
}
use seamlessrdp.Base.Int.{ℤ, is_negative}
use seamlessrdp.Shared.{hwnd_to_long}
use seamlessrdp.Shared.Icon.{Extracted, failed, pixels, overrun}
use seamlessrdp.Hook.{Style, Msg, create, destroy, Blocks}
use seamlessrdp.Hook.Position.{Answers, report, update_position}
use seamlessrdp.Hook.Icon.{icon_chunks, update_icon}
use seamlessrdp.Hook.Window.{Facts, is_toplevel}
use seamlessrdp.Hook.Events.{
  PosFlags, Event, pos_changed, icon_set, destroyed, is_console, icon_messages, show_window,
  report_place, window_pos_changed, icon_changed, on_call, wndproc_hook_proc,
}

-- whether the client knows the window `g`: from its CREATE to its DESTROY
abbrev learn : ℕ → Bool → Msg → Bool
learn g known (create h pid parent flags) = if h == g then true else known
learn g known (destroy h) = if h == g then false else known
learn g known _ = known

pub knows : ℕ → Bool → List Msg → Bool
knows g known [] = known
knows g known (m ∷ out) = knows g (learn g known m) out

-- the same, from the message of Windows
pub alive : Style → Event → Bool → Bool
alive style (pos_changed f) known = if f.hide then false else if f.show then true else known
alive style destroyed known = if style.visible then false else known
alive style _ known = known

knows-++ :
    (g : ℕ) (known : Bool) (out rest : List Msg)
    → knows g known (out ++ rest) ≡ knows g (knows g known out) rest
unfolding knows
knows-++ g known [] rest = refl
knows-++ g known (m ∷ out) rest = knows-++ g (learn g known m) out rest

knows-update_position :
    (g : ℕ) (known : Bool) (sh : Blocks) (hwnd : ℕ) (w : Answers)
    → knows g known (update_position sh hwnd w) ≡ known
unfolding knows update_position report
knows-update_position g known sh hwnd w = ground arith

knows-report_place :
    (g : ℕ) (known : Bool) (sh : Blocks) (w : Facts) → knows g known (report_place sh w) ≡ known
unfolding knows report_place
knows-report_place g known sh w = ground (arith, knows-update_position g known sh w.hwnd w.place)

knows-icon_chunks :
    (g : ℕ) (known : Bool) (left i hwnd side : ℕ) (s : List ℕ)
    → knows g known (icon_chunks left i hwnd side s) ≡ known
unfolding knows icon_chunks
knows-icon_chunks g known zero i hwnd side s = refl
knows-icon_chunks g known (suc left) i hwnd side s = knows-icon_chunks g known left _ hwnd side s

knows-update_icon :
    (g : ℕ) (known : Bool) (hwnd : ℕ) (icon : Extracted) (large : Bool)
    → knows g known (update_icon hwnd icon large) ≡ known
unfolding knows update_icon
knows-update_icon g known hwnd failed large = refl
knows-update_icon g known hwnd overrun large = refl
knows-update_icon g known hwnd (pixels s) large =
    ground (arith, knows-icon_chunks g known _ 0 hwnd _ s)

knows-icon_messages :
    (g : ℕ) (known : Bool) (hwnd : ℕ) (icon : Option Extracted) (large : Bool)
    → knows g known (icon_messages hwnd icon large) ≡ known
unfolding knows
knows-icon_messages g known hwnd none large = refl
knows-icon_messages g known hwnd (some icon) large = knows-update_icon g known hwnd icon large

-- only the window of the message is concerned
abbrev pub told : ℕ → ℕ → Bool → Bool → Bool
told h g news known = if h == g then news else known

knows-show_window :
    (g : ℕ) (known : Bool) (sh : Blocks) (w : Facts)
    → knows g known (show_window sh w) ≡ told (hwnd_to_long w.hwnd) g true known
unfolding knows show_window
knows-show_window g known sh w =
    let after = told (hwnd_to_long w.hwnd) g true known in
    rw
      (
        knows-++ g after (icon_messages w.hwnd w.large_icon true) _,
        knows-icon_messages g after w.hwnd w.large_icon true,
        knows-++ g after (icon_messages w.hwnd w.small_icon false) _,
        knows-icon_messages g after w.hwnd w.small_icon false,
        knows-++ g after (update_position sh w.hwnd w.place) _,
        knows-update_position g after sh w.hwnd w.place,
      )
      refl

shown_part :
    (g : ℕ) (shown known : Bool) (sh : Blocks) (w : Facts)
    → knows g known (if shown then show_window sh w else [])
      ≡ (if shown then told (hwnd_to_long w.hwnd) g true known else known)
unfolding knows
shown_part g true known sh w = knows-show_window g known sh w
shown_part g false known sh w = refl

hidden_part :
    (g : ℕ) (hidden known : Bool) (h : ℕ)
    → knows g known (if hidden then destroy h ∷ [] else [])
      ≡ (if hidden then told h g false known else known)
unfolding knows
hidden_part g true known h = refl
hidden_part g false known h = refl

settled :
    (mine show hide known : Bool)
    → (if hide
        then (if mine then false else if show then (if mine then true else known) else known)
        else if show
        then (if mine then true else known)
        else known)
      ≡ (if mine then (if hide then false else if show then true else known) else known)
settled mine show hide known = ground arith

place_part :
    (g : ℕ) (fixed known : Bool) (sh : Blocks) (w : Facts)
    → knows g known (if fixed then [] else report_place sh w) ≡ known
unfolding knows
place_part g true known sh w = refl
place_part g false known sh w = knows-report_place g known sh w

knows-window_pos_changed :
    (g : ℕ) (known : Bool) (sh : Blocks) (w : Facts) (f : PosFlags)
    → knows g known (window_pos_changed sh w f)
      ≡ told (hwnd_to_long w.hwnd) g (alive w.style (pos_changed f) known) known
unfolding window_pos_changed alive
knows-window_pos_changed g known sh w f =
    let h = hwnd_to_long w.hwnd in
    let seen = if f.show then told h g true known else known in
    rw
      (
        knows-++ g known (if f.show then show_window sh w else []) _,
        shown_part g f.show known sh w,
        knows-++ g seen (if f.hide then destroy h ∷ [] else []) _,
        hidden_part g f.hide seen h,
        place_part g (f.no_move && f.no_size) (if f.hide then told h g false seen else seen) sh w,
      )
      (settled (h == g) f.show f.hide known)

knows-icon_changed :
    (g : ℕ) (known : Bool) (w : Facts) (kind : ℕ) (icon : Option Extracted)
    → knows g known (icon_changed w kind icon) ≡ known
unfolding knows icon_changed
knows-icon_changed g known w kind none = ground arith
knows-icon_changed g known w kind (some icon) =
    ground (
      arith,
      knows-update_icon g known w.hwnd icon true,
      knows-update_icon g known w.hwnd icon false,
    )

knows-on_call :
    (g : ℕ) (known : Bool) (sh : Blocks) (w : Facts) (e : Event)
    → knows g known (on_call sh w e) ≡ told (hwnd_to_long w.hwnd) g (alive w.style e known) known
unfolding knows on_call alive
knows-on_call g known sh w (pos_changed f) = knows-window_pos_changed g known sh w f
knows-on_call g known sh w (icon_set kind icon) =
    ground (arith, knows-icon_changed g known w kind icon)
knows-on_call g known sh w Event.sized = ground (arith, knows-report_place g known sh w)
knows-on_call g known sh w Event.moved = ground (arith, knows-report_place g known sh w)
knows-on_call g known sh w destroyed = ground arith
knows-on_call g known sh w _ = ground arith

-- Let a message come to a top-level window that is no console. Of this window, the client then knows
-- that it is there if it has been shown and not hidden, that it is there no longer if it has been hidden
-- or, visible, destroyed, and else what it knew; and of each other window what it knew. About a
-- window that is no top-level one or a console it is told nothing.
pub wndproc_hook_proc-alive :
    (g : ℕ) (known : Bool) (code : ℤ) (sh : Blocks) (w : Facts) (e : Event)
    → is_negative code ≡ false
    → (is_toplevel w ≡ true
        → is_console w.class ≡ false
        → knows g known (wndproc_hook_proc true code sh w e)
          ≡ told (hwnd_to_long w.hwnd) g (alive w.style e known) known)
      × ((is_toplevel w ≡ false → wndproc_hook_proc true code sh w e ≡ [])
          × (is_console w.class ≡ true → wndproc_hook_proc true code sh w e ≡ []))
unfolding wndproc_hook_proc
wndproc_hook_proc-alive g known code sh w e ordinary = (
  λ top windowed. rw (ordinary, top, windowed) (knows-on_call g known sh w e),
  (λ inner. rw (ordinary, inner) refl, λ console. rw ordinary (ground (arith, console))),
)
