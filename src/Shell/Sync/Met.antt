-- ===== src/Shell/Sync/Met.antt =====
-- The walk of `enum_cb` through the windows: what the windows that it meets send is sent.
use mathlib.Core.List.{Memᴰ}
use seamlessrdp.Base.{
  ℕ, zero, suc, ◌≤◌, ◌<◌, ◌≡◌, refl, Bool, true, false, List, [], ◌∷◌, ◌++◌, Option, none, some,
  if◌then◌else◌, arith,
}
use seamlessrdp.Shared.{hwnd_to_long}
use seamlessrdp.Hook.{Rect}
use seamlessrdp.Shell.Sync.{
  Listed, Sent, parent_of, sync_begin, sync_end, is_listed, announce, describe, append,
  report_window, enum_windows,
}
use seamlessrdp.Shell.Sync.Parents.{
  IsReport, IsRanked, IsReport-enum_windows, IsKnown-head, rank_falls,
}

-- A window that the walk over the windows of `parent` meets, with those between them.
pub data Met (all : List Listed) : ℕ → Listed → Type 0 where
  met : (parent : ℕ) (w : Listed) → Memᴰ w all → is_listed parent w ≡ true → Met all parent w
  inside :
      (parent : ℕ) (v w : Listed) (r : Rect)
      → Memᴰ v all
      → is_listed parent v ≡ true
      → v.rect ≡ some r
      → Met all v.hwnd w
      → Met all parent w

-- The calls have ended and have sent `s`.
pub Sends : Sent → Option (List Sent) → Type 0
Sends s none = ⊥
Sends s (some out) = Memᴰ s out

abbrev IsDone : Option (List Sent) → Type 0
IsDone none = ⊥
IsDone (some out) = Unit

Mem-left : (s : Sent) (out rest : List Sent) → Memᴰ s out → Memᴰ s (out ++ rest)
Mem-left s [] rest m = elim m [ ]
Mem-left s (t ∷ out) rest (Memᴰ.head e) = Memᴰ.head e
Mem-left s (t ∷ out) rest (Memᴰ.tail m) = Memᴰ.tail (Mem-left s out rest m)

Mem-right : (s : Sent) (out rest : List Sent) → Memᴰ s rest → Memᴰ s (out ++ rest)
Mem-right s [] rest m = m
Mem-right s (t ∷ out) rest m = Memᴰ.tail (Mem-right s out rest m)

Sends-left : (s : Sent) (x y : Option (List Sent)) → Sends s x → IsDone y → Sends s (append x y)
unfolding Sends
Sends-left s (some out) (some rest) m done = Mem-left s out rest m
Sends-left s (some out) none m done = done
Sends-left s none y m done = m

Sends-right : (s : Sent) (x y : Option (List Sent)) → IsDone x → Sends s y → Sends s (append x y)
unfolding Sends
Sends-right s (some out) (some rest) done m = Mem-right s out rest m
Sends-right s (some out) none done m = m
Sends-right s none y done m = done

IsReport-IsDone : (known : List ℕ) (x : Option (List Sent)) → IsReport known x → IsDone x
unfolding IsReport
IsReport-IsDone known none h = h
IsReport-IsDone known (some out) h = tt

IsDone-enum_windows :
    (rank : ℕ → ℕ) (fuel : ℕ) (all : List Listed) (parent : ℕ) (ws : List Listed)
    → IsRanked rank all
    → IsRanked rank ws
    → rank parent ≤ fuel
    → IsDone (enum_windows fuel all parent ws)
IsDone-enum_windows rank fuel all parent ws ranked here enough =
    IsReport-IsDone (hwnd_to_long parent ∷ []) _ (
      IsReport-enum_windows rank fuel all parent ws (hwnd_to_long parent ∷ []) ranked here enough
        (IsKnown-head (hwnd_to_long parent) []))

-- what `enum_cb` gets from the inner EnumWindows
abbrev children : ℕ → List Listed → Listed → Option (List Sent)
children zero all w = none
children (suc fuel) all w = enum_windows fuel all w.hwnd all

enum_windows-cons :
    (fuel : ℕ) (all : List Listed) (parent : ℕ) (w : Listed) (ws : List Listed)
    → enum_windows fuel all parent (w ∷ ws) ≡ (
        if is_listed parent w
        then append (report_window w (children fuel all w)) (enum_windows fuel all parent ws)
        else enum_windows fuel all parent ws)
unfolding enum_windows
enum_windows-cons zero all parent w ws = refl
enum_windows-cons (suc fuel) all parent w ws = refl

IsDone-append : (x y : Option (List Sent)) → IsDone (append x y) → IsDone x
IsDone-append none y done = done
IsDone-append (some out) y done = tt

met_here :
    (fuel : ℕ) (all : List Listed) (parent : ℕ) (w : Listed) (ws : List Listed) (s : Sent)
    → IsDone (enum_windows fuel all parent ws)
    → is_listed parent w ≡ true
    → Sends s (report_window w (children fuel all w))
    → Sends s (enum_windows fuel all parent (w ∷ ws))
met_here fuel all parent w ws s done listed m =
    rw (enum_windows-cons fuel all parent w ws, listed) (Sends-left s _ _ m done)

pass_by :
    (s : Sent) (listed : Bool) (x y : Option (List Sent))
    → IsDone (if listed then append x y else y)
    → Sends s y
    → Sends s (if listed then append x y else y)
pass_by s true x y done m = Sends-right s x y (IsDone-append x y done) m
pass_by s false x y done m = m

-- what a window that is met sends is sent
Sends-met :
    (rank : ℕ → ℕ) (fuel : ℕ) (all : List Listed) (parent : ℕ) (ws : List Listed) (v : Listed)
    (s : Sent)
    → IsRanked rank all
    → IsRanked rank ws
    → rank parent ≤ fuel
    → Memᴰ v ws
    → is_listed parent v ≡ true
    → Sends s (report_window v (children fuel all v))
    → Sends s (enum_windows fuel all parent ws)
Sends-met rank fuel all parent [] v s ranked here enough at listed m = elim at [ ]
Sends-met rank fuel all parent (w ∷ ws) v s ranked (h, hs) enough (Memᴰ.head e) listed m =
    rw (← e) (
      met_here fuel all parent v ws s (IsDone-enum_windows rank fuel all parent ws ranked hs enough)
        listed m)
Sends-met rank fuel all parent (w ∷ ws) v s ranked (h, hs) enough (Memᴰ.tail at) listed m =
    rw (enum_windows-cons fuel all parent w ws) (
      pass_by s (is_listed parent w) (report_window w (children fuel all w))
        (enum_windows fuel all parent ws)
        (rw (← enum_windows-cons fuel all parent w ws)
          (IsDone-enum_windows rank fuel all parent (w ∷ ws) ranked (h, hs) enough))
        (Sends-met rank fuel all parent ws v s ranked hs enough at listed m))

-- a window sends its CREATE
announced :
    (w : Listed) (rect : Option Rect) (inner : Option (List Sent))
    → w.rect ≡ rect
    → IsDone inner
    → Sends (announce w) (report_window w inner)
unfolding report_window Sends parent_of
announced w none inner e done = rw (report_window, e) (Memᴰ.head refl)
announced w (some r) (some out) e done = rw (report_window, e) (Memᴰ.head refl)
announced w (some r) none e done = absurd done

-- and a window with a rectangle what the windows below it send
passed_on :
    (v : Listed) (r : Rect) (inner : Option (List Sent)) (s : Sent)
    → v.rect ≡ some r
    → Sends s inner
    → Sends s (report_window v inner)
unfolding report_window
passed_on v r inner s e m =
    rw (report_window, e) (Sends-right s (some (announce v ∷ describe v r)) inner tt m)

ranked_at :
    (rank : ℕ → ℕ) (all : List Listed) (parent : ℕ) (v : Listed) (ws : List Listed)
    → IsRanked rank ws
    → Memᴰ v ws
    → is_listed parent v ≡ true
    → rank v.hwnd < rank parent
ranked_at rank all parent v [] here at listed = elim at [ ]
ranked_at rank all parent v (w ∷ ws) (h, hs) (Memᴰ.head e) listed =
    rank_falls rank parent v listed (rw e h)
ranked_at rank all parent v (w ∷ ws) (h, hs) (Memᴰ.tail at) listed =
    ranked_at rank all parent v ws hs at listed

pub Met-Sends :
    (rank : ℕ → ℕ) (fuel : ℕ) (all : List Listed) (parent : ℕ) (w : Listed)
    → IsRanked rank all
    → rank parent ≤ fuel
    → Met all parent w
    → Sends (announce w) (enum_windows fuel all parent all)
Met-Sends rank zero all parent w ranked enough (met p w' at listed) =
    absurd (omega (arith, ranked_at rank all parent w all ranked at listed))
Met-Sends rank zero all parent w ranked enough (inside p v w' r at listed e below) =
    absurd (omega (arith, ranked_at rank all parent v all ranked at listed))
Met-Sends rank (suc fuel) all parent w ranked enough (met p w' at listed) =
    Sends-met rank (suc fuel) all parent all w (announce w) ranked ranked enough at listed (
      announced w w.rect (enum_windows fuel all w.hwnd all) refl (
        IsDone-enum_windows rank fuel all w.hwnd all ranked ranked
          (omega (arith, ranked_at rank all parent w all ranked at listed))))
Met-Sends rank (suc fuel) all parent w ranked enough (inside p v w' r at listed e below) =
    Sends-met rank (suc fuel) all parent all v (announce w) ranked ranked enough at listed (
      passed_on v r (enum_windows fuel all v.hwnd all) (announce w) e (
        Met-Sends rank fuel all v.hwnd w ranked
          (omega (arith, ranked_at rank all parent v all ranked at listed)) below))

pub Sends-sync :
    (s : Sent) (found : Option (List Sent))
    → Sends s found
    → Sends s (elim found [ none ↦ none | some out ↦ some (sync_begin ∷ (out ++ sync_end ∷ [])) ])
unfolding Sends
Sends-sync s none m = m
Sends-sync s (some out) m = Memᴰ.tail (Mem-left s out (sync_end ∷ []) m)
