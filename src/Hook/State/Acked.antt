-- ===== src/Hook/State/Acked.antt =====
-- How a request for a state is acknowledged.
use seamlessrdp.Base.{
  ◌++◌, ℕ, ◌≡◌, ◌≢◌, refl, true, false, List, [], ◌∷◌, Option, none, some, All, ==_iff, arith,
}
use seamlessrdp.Base.Int.{ℤ, pos, eq_ℤ, eq_ℤ-true, eq_ℤ-refl}
use seamlessrdp.Shared.{hwnd_to_long, long_to_hwnd}
use seamlessrdp.Hook.{Style, Msg, state, ack, Blocks, acked, acked-++}
use seamlessrdp.Hook.State.{
  shown_state, min_max, current_state, show_command, Shown, min_maxed, hooked, min_maxes,
  block_states, safe_set_state,
}

shown_state-show_command :
    (s : ℤ) (show : ℕ) → show_command s ≡ some show → shown_state show ≡ some s
unfolding show_command shown_state
shown_state-show_command s show h =
    ground (arith, eq_ℤ-true s (pos 0), eq_ℤ-true s (pos 1), eq_ℤ-true s (pos 2))

min_max-blocked :
    (sh : Blocks) (serial hwnd : ℕ) (s : ℤ) (style : Style) (show : ℕ)
    → long_to_hwnd (hwnd_to_long hwnd) ≡ hwnd
    → style.visible ≡ true
    → shown_state show ≡ some s
    → min_max (block_states sh serial hwnd s) hwnd style show ≡ ack serial ∷ []
unfolding min_max
min_max-blocked sh serial hwnd s style show handle visible shown =
    rw (min_max, visible, shown, handle, (==_iff hwnd hwnd).1 refl, eq_ℤ-refl s) refl

pub min_max-reported :
    (sh : Blocks) (hwnd : ℕ) (s : ℤ) (style : Style) (show : ℕ)
    → sh.blocked_state_hwnd ≡ 0
    → hwnd ≢ 0
    → style.visible ≡ true
    → shown_state show ≡ some s
    → min_max sh hwnd style show ≡ state (hwnd_to_long hwnd) s ∷ []
unfolding min_max long_to_hwnd
min_max-reported sh hwnd s style show clear nonzero visible shown =
    rw (min_max, visible, shown, clear) (ground arith)

-- A run of a window hook that writes no acknowledgement.
pub data IsQuiet : Shown → Type 0 where
  quiet :
      (writes : Blocks → List Msg)
      → ((sh : Blocks) → acked (writes sh) ≡ [])
      → IsQuiet (hooked writes)

-- `ShowWindow` on a visible window runs `cbt_hook_proc` once, with its own command, and the window hooks
-- before and behind it.
pub record ShowsOnce (style : Style) (show : ℕ) (ws : List Shown) : Type 0 where
  pub before : List Shown
  pub behind : List Shown
  pub order : ws ≡ before ++ min_maxed style show ∷ behind
  pub quiet_before : All IsQuiet before
  pub quiet_behind : All IsQuiet behind

acked-quiet :
    (sh : Blocks) (hwnd : ℕ) (ws rest : List Shown)
    → All IsQuiet ws
    → acked (min_maxes sh hwnd (ws ++ rest)) ≡ acked (min_maxes sh hwnd rest)
unfolding min_maxes
acked-quiet sh hwnd [] rest h = refl
acked-quiet sh hwnd (_ ∷ ws) rest (quiet writes silent, hs) =
    rw
      (
        acked-++ (writes sh) (min_maxes sh hwnd (ws ++ rest)),
        silent sh,
        acked-quiet sh hwnd ws rest hs,
      )
      refl

quiet_alone :
    (sh : Blocks) (hwnd : ℕ) (ws : List Shown) → All IsQuiet ws → acked (min_maxes sh hwnd ws) ≡ []
unfolding min_maxes
quiet_alone sh hwnd [] h = refl
quiet_alone sh hwnd (_ ∷ ws) (quiet writes silent, hs) =
    rw (acked-++ (writes sh) (min_maxes sh hwnd ws), silent sh, quiet_alone sh hwnd ws hs) refl

min_maxes-acked :
    (sh : Blocks) (serial hwnd : ℕ) (s : ℤ) (style : Style) (show : ℕ) (ws : List Shown)
    → long_to_hwnd (hwnd_to_long hwnd) ≡ hwnd
    → style.visible ≡ true
    → shown_state show ≡ some s
    → ShowsOnce style show ws
    → acked (min_maxes (block_states sh serial hwnd s) hwnd ws) ≡ serial ∷ []
unfolding min_maxes
min_maxes-acked sh serial hwnd s style show ws handle visible shown once =
    let blocked = block_states sh serial hwnd s in
    rw
      (
        once.order,
        acked-quiet blocked hwnd once.before (min_maxed style show ∷ once.behind) once.quiet_before,
        min_max-blocked sh serial hwnd s style show handle visible shown,
        quiet_alone blocked hwnd once.behind once.quiet_behind,
      )
      refl

-- A request for one of the three states on a visible window is acknowledged exactly once, with its own
-- serial number, when ShowWindow runs `cbt_hook_proc` once with the command it was given, and the
-- window hooks that run meanwhile acknowledge nothing.
pub safe_set_state-acked :
    (sh : Blocks) (serial hwnd : ℕ) (s : ℤ) (style : Style) (responds : ℕ → List Shown) (show : ℕ)
    → long_to_hwnd (hwnd_to_long hwnd) ≡ hwnd
    → style.visible ≡ true
    → ((q : ℕ) → ShowsOnce style q (responds q))
    → show_command s ≡ some show
    → acked (safe_set_state true sh serial hwnd s style responds).0 ≡ serial ∷ []
unfolding safe_set_state
safe_set_state-acked sh serial hwnd s style responds show handle visible once known = rw known (
    ground (
      arith,
      min_maxes-acked sh serial hwnd s style show (responds show) handle visible
          (shown_state-show_command s show known) (once show),
    ))

-- After a request that found no other pending, a window that changes its state by itself is reported.
pub safe_set_state-clear :
    (sh : Blocks) (serial hwnd : ℕ) (s : ℤ) (style : Style) (responds : ℕ → List Shown) (other : ℕ)
    (t : ℤ) (style' : Style) (show : ℕ)
    → sh.blocked_state_hwnd ≡ 0
    → other ≢ 0
    → style'.visible ≡ true
    → shown_state show ≡ some t
    → min_max (safe_set_state true sh serial hwnd s style responds).1 other style' show
      ≡ state (hwnd_to_long other) t ∷ []
unfolding safe_set_state
safe_set_state-clear sh serial hwnd s style responds other t style' show clear nonzero visible
      shown =
    min_max-reported _ other t style' show (ground arith) nonzero visible shown

-- A run that acknowledges nothing: of the hook on a hidden window, or of a window hook.
pub data IsUnheard : Shown → Type 0 where
  unseen : (style : Style) (show : ℕ) → style.visible ≡ false → IsUnheard (min_maxed style show)
  silent : (w : Shown) → IsQuiet w → IsUnheard w

acked-unheard :
    (sh : Blocks) (hwnd : ℕ) (ws : List Shown)
    → All IsUnheard ws
    → acked (min_maxes sh hwnd ws) ≡ []
unfolding min_maxes min_max
acked-unheard sh hwnd [] h = refl
acked-unheard sh hwnd (_ ∷ ws) (unseen style show e, hs) =
    rw (min_max, e) (acked-unheard sh hwnd ws hs)
acked-unheard sh hwnd (_ ∷ ws) (silent w (quiet writes none_acked), hs) =
    rw (acked-++ (writes sh) (min_maxes sh hwnd ws), none_acked sh, acked-unheard sh hwnd ws hs)
      refl

not_equal : (s t : ℤ) → s ≢ t → eq_ℤ s t ≡ false
not_equal s t differ = ground (arith, eq_ℤ-true s t)

changed-unacked :
    (sh : Blocks) (serial hwnd : ℕ) (s : ℤ) (style : Style) (responds : ℕ → List Shown)
    (known : Option ℕ)
    → s ≢ current_state style
    → show_command s ≡ known
    → ((q : ℕ) → All IsUnheard (responds q))
    → acked (safe_set_state true sh serial hwnd s style responds).0 ≡ []
unfolding safe_set_state
changed-unacked sh serial hwnd s style responds none changed unknown hidden =
    rw (not_equal s (current_state style) changed, unknown) refl
changed-unacked sh serial hwnd s style responds (some show) changed known hidden =
    rw
      (
        not_equal s (current_state style) changed,
        known,
        acked-unheard (block_states sh serial hwnd s) hwnd (responds show) (hidden show),
      )
      refl

-- A request for another state than the present one is not acknowledged when the state is unknown or
-- `cbt_hook_proc` finds the window hidden.
pub safe_set_state-unacked :
    (sh : Blocks) (serial hwnd : ℕ) (s : ℤ) (style : Style) (responds : ℕ → List Shown)
    → s ≢ current_state style
    → ((q : ℕ) → All IsUnheard (responds q))
    → acked (safe_set_state true sh serial hwnd s style responds).0 ≡ []
unfolding safe_set_state
safe_set_state-unacked sh serial hwnd s style responds changed hidden =
    changed-unacked sh serial hwnd s style responds (show_command s) changed refl hidden
