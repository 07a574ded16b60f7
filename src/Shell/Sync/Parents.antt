-- ===== src/Shell/Sync/Parents.antt =====
-- A synchronization ends, and reports every window behind its parent.
use seamlessrdp.Base.{
  ℕ, zero, suc, ◌≤◌, ◌<◌, ◌≡◌, ◌⊎◌, inl, inr, refl, Bool, true, false, List, [], ◌∷◌, ◌++◌, Option,
  none, some, All, if◌then◌else◌, arith,
}
use seamlessrdp.Shared.{hwnd_to_long}
use seamlessrdp.Hook.{Rect, create}
use seamlessrdp.Shell.Sync.{
  Listed, Sent, sent, sync_begin, sync_end, parent_of, is_listed, announce, describe, append,
  report_window, enum_windows, do_sync,
}

-- NULL, or one of the windows that the client has been told of
pub IsKnown : ℕ → List ℕ → Type 0
IsKnown p [] = p ≡ 0
IsKnown p (h ∷ hs) = (p ≡ h) ⊎ IsKnown p hs

IsAllowed : List ℕ → Sent → Type 0
IsAllowed known (sent (create h pid p flags)) = IsKnown p known
IsAllowed known _ = Unit

abbrev learn : Sent → List ℕ → List ℕ
learn (sent (create h pid p flags)) known = h ∷ known
learn _ known = known

-- Every CREATE names a parent that is known when it is sent.
pub IsOrdered : List ℕ → List Sent → Type 0
IsOrdered known [] = Unit
IsOrdered known (s ∷ out) = IsAllowed known s × IsOrdered (learn s known) out

-- The calls have ended, and what they have sent is in order.
unfoldable pub IsReport : List ℕ → Option (List Sent) → Type 0
IsReport known none = ⊥
IsReport known (some out) = IsOrdered known out

abbrev Extends : List ℕ → List ℕ → Type 0
Extends known more = (p : ℕ) → IsKnown p known → IsKnown p more

Extends-cons : (known more : List ℕ) (h : ℕ) → Extends known more → Extends (h ∷ known) (h ∷ more)
unfolding IsKnown
Extends-cons known more h ext p (inl here) = inl here
Extends-cons known more h ext p (inr there) = inr (ext p there)

Extends-learn :
    (known more : List ℕ) (s : Sent) → Extends known more → Extends (learn s known) (learn s more)
Extends-learn known more (sent (create h pid p flags)) ext = Extends-cons known more h ext
Extends-learn known more _ ext = ext

Extends-learned : (known : List ℕ) (s : Sent) → Extends known (learn s known)
unfolding IsKnown
Extends-learned known (sent (create h pid p flags)) q k = inr k
Extends-learned known _ q k = k

IsAllowed-Extends :
    (known more : List ℕ) (s : Sent) → Extends known more → IsAllowed known s → IsAllowed more s
unfolding IsAllowed
IsAllowed-Extends known more (sent (create h pid p flags)) ext k = ext p k
IsAllowed-Extends known more _ ext k = tt

IsOrdered-Extends :
    (known more : List ℕ) (out : List Sent)
    → Extends known more
    → IsOrdered known out
    → IsOrdered more out
unfolding IsOrdered
IsOrdered-Extends known more [] ext h = tt
IsOrdered-Extends known more (s ∷ out) ext (h, hs) = (
  IsAllowed-Extends known more s ext h,
  IsOrdered-Extends (learn s known) (learn s more) out (Extends-learn known more s ext) hs,
)

IsOrdered-append :
    (known : List ℕ) (out rest : List Sent)
    → IsOrdered known out
    → IsOrdered known rest
    → IsOrdered known (out ++ rest)
unfolding IsOrdered
IsOrdered-append known [] rest h k = k
IsOrdered-append known (s ∷ out) rest (h, hs) k = (
  h,
  IsOrdered-append (learn s known) out rest hs
      (IsOrdered-Extends known (learn s known) rest (Extends-learned known s) k),
)

IsReport-append :
    (known : List ℕ) (x y : Option (List Sent))
    → IsReport known x
    → IsReport known y
    → IsReport known (append x y)
unfolding IsReport
IsReport-append known (some out) (some rest) h k = IsOrdered-append known out rest h k
IsReport-append known (some out) none h k = k
IsReport-append known none y h k = h

IsReport-described :
    (known : List ℕ) (w : Listed) (r : Rect) (children : Option (List Sent))
    → IsKnown (hwnd_to_long (parent_of w)) known
    → IsReport (hwnd_to_long w.hwnd ∷ known) children
    → IsReport known (append (some (announce w ∷ describe w r)) children)
unfolding IsReport IsOrdered IsAllowed announce describe
IsReport-described known w r none k h = h
IsReport-described known w r (some out) k h = (k, (tt, (tt, (tt, (tt, h)))))

IsReport-report_window :
    (known : List ℕ) (w : Listed) (rect : Option Rect) (children : Option (List Sent))
    → w.rect ≡ rect
    → IsKnown (hwnd_to_long (parent_of w)) known
    → IsReport (hwnd_to_long w.hwnd ∷ known) children
    → IsReport known (report_window w children)
unfolding report_window IsReport IsOrdered IsAllowed announce
IsReport-report_window known w none children e k h = rw (report_window, e) (k, (tt, tt))
IsReport-report_window known w (some r) children e k h =
    rw (report_window, e) (IsReport-described known w r children k h)

is_listed-parent : (parent : ℕ) (w : Listed) → is_listed parent w ≡ true → parent_of w ≡ parent
unfolding is_listed
is_listed-parent parent w h = ground arith

-- a step of the walk
IsReport-step :
    (known : List ℕ) (parent : ℕ) (w : Listed) (listed : Bool) (children rest : Option (List Sent))
    → is_listed parent w ≡ listed
    → IsKnown (hwnd_to_long parent) known
    → (is_listed parent w ≡ true → IsReport (hwnd_to_long w.hwnd ∷ known) children)
    → IsReport known rest
    → IsReport known (if listed then append (report_window w children) rest else rest)
IsReport-step known parent w false children rest e k inner h = h
IsReport-step known parent w true children rest e k inner h =
    IsReport-append known (report_window w children) rest
      (IsReport-report_window known w w.rect children refl (rw (is_listed-parent parent w e) k)
        (inner e))
      h

pub IsKnown-head : (h : ℕ) (known : List ℕ) → IsKnown h (h ∷ known)
unfolding IsKnown
IsKnown-head h known = inl refl

null-IsKnown : IsKnown (hwnd_to_long 0) []
unfolding IsKnown hwnd_to_long
null-IsKnown = refl

-- `rank` falls from each window to those that it is the parent of, so that there are no cycles.
abbrev pub IsRanked : (ℕ → ℕ) → List Listed → Type 0
IsRanked rank ws = All (λ w. rank w.hwnd < rank (parent_of w)) ws

pub rank_falls :
    (rank : ℕ → ℕ) (parent : ℕ) (w : Listed)
    → is_listed parent w ≡ true
    → rank w.hwnd < rank (parent_of w)
    → rank w.hwnd < rank parent
rank_falls rank parent w e h = rw (← is_listed-parent parent w e) h

pub IsReport-enum_windows :
    (rank : ℕ → ℕ) (fuel : ℕ) (all : List Listed) (parent : ℕ) (ws : List Listed) (known : List ℕ)
    → IsRanked rank all
    → IsRanked rank ws
    → rank parent ≤ fuel
    → IsKnown (hwnd_to_long parent) known
    → IsReport known (enum_windows fuel all parent ws)
unfolding enum_windows IsReport IsOrdered
IsReport-enum_windows rank fuel all parent [] known ranked here enough k = tt
IsReport-enum_windows rank zero all parent (w ∷ ws) known ranked (h, hs) enough k =
    IsReport-step known parent w (is_listed parent w) none (enum_windows zero all parent ws) refl k
      (λ e. absurd (omega (arith, rank_falls rank parent w e h)))
      (IsReport-enum_windows rank zero all parent ws known ranked hs enough k)
IsReport-enum_windows rank (suc fuel) all parent (w ∷ ws) known ranked (h, hs) enough k =
    IsReport-step known parent w (is_listed parent w) (enum_windows fuel all w.hwnd all)
      (enum_windows (suc fuel) all parent ws) refl k
      (λ e.
        IsReport-enum_windows rank fuel all w.hwnd all (hwnd_to_long w.hwnd ∷ known) ranked ranked
          (omega (arith, rank_falls rank parent w e h)) (IsKnown-head (hwnd_to_long w.hwnd) known))
      (IsReport-enum_windows rank (suc fuel) all parent ws known ranked hs enough k)

IsOrdered-end : (known : List ℕ) → IsOrdered known (sync_end ∷ [])
unfolding IsOrdered IsAllowed
IsOrdered-end known = (tt, tt)

IsReport-sync :
    (found : Option (List Sent))
    → IsReport [] found
    → IsReport []
        (elim found [ none ↦ none | some out ↦ some (sync_begin ∷ (out ++ sync_end ∷ [])) ])
unfolding IsReport IsOrdered IsAllowed
IsReport-sync none h = h
IsReport-sync (some out) h = (tt, IsOrdered-append [] out (sync_end ∷ []) h (IsOrdered-end []))

-- Where the windows have no cycle of parents, a synchronization ends, with calls no deeper than the
-- windows are below each other, and every CREATE in it names NULL or a window whose CREATE stands
-- before it.
pub IsReport-do_sync :
    (rank : ℕ → ℕ) (all : List Listed) → IsRanked rank all → IsReport [] (do_sync (rank 0) all)
unfolding do_sync
IsReport-do_sync rank all ranked =
    IsReport-sync (enum_windows (rank 0) all 0 all)
      (IsReport-enum_windows rank (rank 0) all 0 all [] ranked ranked (omega arith) null-IsKnown)
