-- ===== src/Shell/Print/Synced.antt =====
-- What the shell writes can be stored and sent.
use seamlessrdp.Base.{
  ℕ, zero, suc, ◌≤◌, ◌≡◌, refl, sym, Bool, true, false, List, [], ◌∷◌, ◌++◌, Option, none, some,
  All, All-append, arith, length, if◌then◌else◌,
}
use seamlessrdp.Hook.{Rect}
use seamlessrdp.Hook.Print.Args.{IsWritable}
use seamlessrdp.Hook.Print.Written.{strfilter_unicode-IsField}
use seamlessrdp.Shell.Session.{Notice, hello, hide, unhide}
use seamlessrdp.Shell.Sync.{
  Listed, Sent, sent, sync_begin, sync_end, pumped, is_listed, announce, describe, append,
  report_window, enum_windows, do_sync,
}
use seamlessrdp.Shell.Print.{notice_msgs, sync_msgs}

pub notice_msgs-IsWritable : (ns : List Notice) → All IsWritable (notice_msgs ns)
unfolding notice_msgs
notice_msgs-IsWritable [] = tt
notice_msgs-IsWritable (hello flags ∷ ns) = (tt, notice_msgs-IsWritable ns)
notice_msgs-IsWritable (hide ∷ ns) = (tt, notice_msgs-IsWritable ns)
notice_msgs-IsWritable (unhide ∷ ns) = (tt, notice_msgs-IsWritable ns)

IsGood : Sent → Type 0
IsGood (sent m) = IsWritable m
IsGood _ = Unit

-- a title as `GetWindowTextW` fills its array
abbrev pub IsListedTitle : Listed → Type 0
IsListedTitle w = length w.title ≤ 149

AllGood : Option (List Sent) → Type 0
AllGood none = Unit
AllGood (some out) = All IsGood out

AllGood-append : (x y : Option (List Sent)) → AllGood x → AllGood y → AllGood (append x y)
unfolding AllGood
AllGood-append none y h k = tt
AllGood-append (some out) none h k = tt
AllGood-append (some out) (some rest) h k = All-append IsGood out rest h k

AllGood-report_window :
    (w : Listed) (rect : Option Rect) (children : Option (List Sent))
    → w.rect ≡ rect
    → IsListedTitle w
    → AllGood children
    → AllGood (report_window w children)
unfolding report_window AllGood IsGood announce describe
AllGood-report_window w none children e t h = rw (report_window, e) (tt, (omega arith, tt))
AllGood-report_window w (some r) none e t h = rw (report_window, e) tt
AllGood-report_window w (some r) (some out) e t h =
    rw (report_window, e) (tt, (tt, (strfilter_unicode-IsField w.title t, (tt, (tt, h)))))

AllGood-step :
    (w : Listed) (listed : Bool) (children rest : Option (List Sent))
    → IsListedTitle w
    → AllGood children
    → AllGood rest
    → AllGood (if listed then append (report_window w children) rest else rest)
AllGood-step w false children rest t h k = k
AllGood-step w true children rest t h k =
    AllGood-append (report_window w children) rest
      (AllGood-report_window w w.rect children refl t h) k

AllGood-enum_windows :
    (fuel : ℕ) (all : List Listed) (parent : ℕ) (ws : List Listed)
    → All IsListedTitle all
    → All IsListedTitle ws
    → AllGood (enum_windows fuel all parent ws)
unfolding enum_windows AllGood
AllGood-enum_windows fuel all parent [] t u = tt
AllGood-enum_windows zero all parent (w ∷ ws) t (u, us) =
    AllGood-step w (is_listed parent w) none (enum_windows zero all parent ws) u tt
      (AllGood-enum_windows zero all parent ws t us)
AllGood-enum_windows (suc fuel) all parent (w ∷ ws) t (u, us) =
    AllGood-step w (is_listed parent w) (enum_windows fuel all w.hwnd all)
      (enum_windows (suc fuel) all parent ws) u (AllGood-enum_windows fuel all w.hwnd all t t)
      (AllGood-enum_windows (suc fuel) all parent ws t us)

sync_msgs-IsWritable : (out : List Sent) → All IsGood out → All IsWritable (sync_msgs out)
unfolding sync_msgs IsGood
sync_msgs-IsWritable [] h = tt
sync_msgs-IsWritable (sent m ∷ out) (h, hs) = (h, sync_msgs-IsWritable out hs)
sync_msgs-IsWritable (sync_begin ∷ out) (h, hs) = (tt, sync_msgs-IsWritable out hs)
sync_msgs-IsWritable (sync_end ∷ out) (h, hs) = (tt, sync_msgs-IsWritable out hs)
sync_msgs-IsWritable (pumped ∷ out) (h, hs) = sync_msgs-IsWritable out hs

AllGood-synced :
    (walked : Option (List Sent)) (out : List Sent)
    → AllGood walked
    → elim walked [ none ↦ none | some s ↦ some (sync_begin ∷ (s ++ sync_end ∷ [])) ] ≡ some out
    → All IsGood out
unfolding AllGood IsGood
AllGood-synced none out h e = cc
AllGood-synced (some s) out h e =
    let same : sync_begin ∷ (s ++ sync_end ∷ []) ≡ out = cc e in
    rw (sym same) (tt, All-append IsGood s (sync_end ∷ []) h (tt, tt))

pub do_sync-IsWritable :
    (fuel : ℕ) (all : List Listed) (out : List Sent)
    → All IsListedTitle all
    → do_sync fuel all ≡ some out
    → All IsWritable (sync_msgs out)
unfolding do_sync
do_sync-IsWritable fuel all out t e =
    sync_msgs-IsWritable out
      (AllGood-synced (enum_windows fuel all 0 all) out (AllGood-enum_windows fuel all 0 all t t) e)
