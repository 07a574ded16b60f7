-- ===== src/Hook/Focus/Raised.antt =====
-- How a request for the focus is answered.
use seamlessrdp.Base.{ℕ, ◌≡◌, refl, Bool, true, false, not, ◌&&◌, [], ◌∷◌, ◌==◌, if◌then◌else◌}
use seamlessrdp.Hook.{ack, Blocks}
use seamlessrdp.Hook.Window.{is_toplevel, is_menu}
use seamlessrdp.Hook.Events.{wndprocret_hook_proc, on_focus, on_return}
use seamlessrdp.Hook.Focus.{Visit, visits, safe_focus}

-- whether the window is brought to the foreground
abbrev pub raises : Visit → Bool
raises v = not (v.foreground == v.window.hwnd) && not (is_menu v.window.style)

-- A request for the focus that reaches the window is acknowledged exactly once, also if the window has
-- the focus already or is a menu, and brings it to the foreground if neither is so; a child
-- window is neither raised nor acknowledged. No request is pending afterwards.
safe_focus-answered :
    (sh : Blocks) (serial hwnd : ℕ) (v : Visit)
    → ((safe_focus true sh serial hwnd (v ∷ [])).1.blocked_focus ≡ 0)
      × ((is_toplevel v.window ≡ true
            → (safe_focus true sh serial hwnd (v ∷ [])).0
              ≡ (if raises v then v.window.hwnd ∷ [] else [], ack serial ∷ []))
          × (is_toplevel v.window ≡ false → (safe_focus true sh serial hwnd (v ∷ [])).0 ≡ ([], [])))
unfolding safe_focus visits wndprocret_hook_proc on_focus on_return
safe_focus-answered sh serial hwnd v = (refl, (λ top. rw top refl, λ inner. rw inner refl))
