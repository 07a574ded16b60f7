-- ===== src/Hook/Order/Behind.antt =====
-- Where a window is put, and what the client hears of it.
use seamlessrdp.Base.{
  ℕ, ◌≡◌, ◌≢◌, refl, true, false, List, [], ◌∷◌, ◌++◌, All, ==_iff, ◌==◌, if◌then◌else◌, arith, ◌⊎◌,
  ◌∙◌,
}
use seamlessrdp.Shared.{hwnd_to_long, long_to_hwnd}
use seamlessrdp.Hook.{Style, zchange, ack, Blocks, create_topmost}
use seamlessrdp.Hook.Order.{
  Window, window_above, update_zorder, insert_after, update_zorders, safe_zchange,
}

-- A window that the client shows by itself, and one that it does not.
pub record IsShown (s : Style) : Type 0 where
  pub visible : s.visible ≡ true
  pub own : (s.child ≡ false) ⊎ (s.popup ≡ true)

pub data IsPassed (s : Style) : Type 0 where
  hidden : s.visible ≡ false → IsPassed s
  inner : s.child ≡ true → s.popup ≡ false → IsPassed s

-- The nearest window above that is visible and no child but for a popup: its handle, or NULL where
-- there is none.
pub data Nearest : List Window → ℕ → Type 0 where
  none_shown : {ws : List Window} → All (λ w. IsPassed w.style) ws → Nearest ws 0
  found :
      (passed : List Window) (w : Window) (rest : List Window)
      → All (λ v. IsPassed v.style) passed
      → IsShown w.style
      → Nearest (passed ++ w ∷ rest) w.hwnd

passed-window_above :
    (w : Window) (ws : List Window) → IsPassed w.style → window_above (w ∷ ws) ≡ window_above ws
unfolding window_above
passed-window_above w ws (hidden e) = ground (arith, e)
passed-window_above w ws (inner e f) = ground (arith, e, f)

shown-window_above :
    (w : Window) (ws : List Window) → IsShown w.style → window_above (w ∷ ws) ≡ w.hwnd
unfolding window_above
shown-window_above w ws h = ground (arith, h.visible, h.own)

window_above-none : (ws : List Window) → All (λ w. IsPassed w.style) ws → window_above ws ≡ 0
unfolding window_above
window_above-none [] h = refl
window_above-none (w ∷ ws) h = passed-window_above w ws h.0 ∙ window_above-none ws h.1

window_above-found :
    (passed : List Window) (w : Window) (rest : List Window)
    → All (λ v. IsPassed v.style) passed
    → IsShown w.style
    → window_above (passed ++ w ∷ rest) ≡ w.hwnd
window_above-found [] w rest h shown = shown-window_above w rest shown
window_above-found (v ∷ passed) w rest h shown =
    passed-window_above v (passed ++ w ∷ rest) h.0 ∙ window_above-found passed w rest h.1 shown

-- The walk over the windows above ends at the nearest one.
Nearest-window_above : (ws : List Window) (h : ℕ) → Nearest ws h → window_above ws ≡ h
Nearest-window_above _ _ (none_shown all) = window_above-none _ all
Nearest-window_above _ _ (found passed w rest all shown) =
    window_above-found passed w rest all shown

abbrev pub flags_of : Window → ℕ
flags_of w = if w.style.topmost then create_topmost else 0

same_handle : (blocked behind : ℕ) → behind ≡ blocked → (behind == blocked) ≡ true
same_handle blocked behind h = (==_iff behind blocked).1 h

other_handle : (blocked behind : ℕ) → behind ≢ blocked → (behind == blocked) ≡ false
other_handle blocked behind h = ground (arith, ==_iff behind blocked)

-- Let the two windows of a request for a new place have handles that pass through a `long`, and let the
-- hook be called once while Windows moves the window. The client hears of the window's place by the
-- acknowledgement if the nearest window above it that is visible, and no child but for a popup, is the
-- one that was named; and by a ZCHANGE with this nearest window, or NULL, if it is not.
pub safe_zchange-answered :
    (sh : Blocks) (serial : ℕ) (w behind : Window) (responds : ℕ → List (List Window))
    (above : List Window) (h : ℕ)
    → long_to_hwnd (hwnd_to_long w.hwnd) ≡ w.hwnd
    → long_to_hwnd (hwnd_to_long behind.hwnd) ≡ behind.hwnd
    → responds (insert_after w behind) ≡ above ∷ []
    → Nearest above h
    → (h ≡ behind.hwnd → (safe_zchange true sh serial w behind responds).0 ≡ ack serial ∷ [])
      × (h ≢ behind.hwnd
          → (safe_zchange true sh serial w behind responds).0
            ≡ zchange (hwnd_to_long w.hwnd) (hwnd_to_long h) (flags_of w) ∷ [])
unfolding safe_zchange update_zorders update_zorder
safe_zchange-answered sh serial w behind responds above h handle handle' once nearest =
    let same = Nearest-window_above above h nearest in
    (
      λ there.
          rw
            (
              once,
              handle,
              handle',
              (==_iff w.hwnd w.hwnd).1 refl,
              same,
              same_handle behind.hwnd h there,
            )
            refl,
      λ elsewhere.
          rw
            (
              once,
              handle,
              handle',
              (==_iff w.hwnd w.hwnd).1 refl,
              same,
              other_handle behind.hwnd h elsewhere,
            )
            refl,
    )

-- The window that is passed to SetWindowPos is the one named if both are topmost or both are not, and
-- HWND_TOP if they differ or none is named; so no window is put behind one of the other kind. The block
-- is clear afterwards: the next change of the order is reported.
safe_zchange-kinds :
    (sh : Blocks) (serial : ℕ) (w behind : Window) (responds : ℕ → List (List Window))
    (other : Window) (above : List Window)
    → other.hwnd ≢ 0
    → (w.style.topmost ≡ behind.style.topmost → insert_after w behind ≡ behind.hwnd)
      × ((w.style.topmost ≢ behind.style.topmost → insert_after w behind ≡ 0)
          × (update_zorder (safe_zchange true sh serial w behind responds).1 other above
              ≡ zchange
                  (hwnd_to_long other.hwnd)
                  (hwnd_to_long (window_above above))
                  (flags_of other)
                ∷ []))
unfolding safe_zchange insert_after update_zorder long_to_hwnd
safe_zchange-kinds sh serial w behind responds other above nonzero =
    (λ same. ground arith, (λ differ. ground arith, ground arith))
