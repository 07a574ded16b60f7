-- ===== src/Hook/Print/Output.antt =====
-- Whatever an entry point of ServerExe/hookdll.c or the shell, ServerExe/main.c, writes is well formed.
use seamlessrdp.Base.{
  ℕ, ◌≤◌, Option-cases, some, ◌≡◌, inl, inr, Bool, true, false, List, [], ◌∷◌, ◌++◌, All, arith,
  length, length-append, codes,
}
use seamlessrdp.Base.Int.{ℤ, pos}
use seamlessrdp.Vchannel.Format.{print_int}
use seamlessrdp.Vchannel.Format.Plain.{All-map, print_int-IsField}
use seamlessrdp.Hook.{Style, Msg, Blocks}
use seamlessrdp.Hook.Window.{Facts}
use seamlessrdp.Hook.Position.{
  Answers, Place, Response, update_positions, add_borders, rect_of, block_moves, safe_move_window,
}
use seamlessrdp.Hook.Order.{Window, safe_zchange, block_zchanges, insert_after}
use seamlessrdp.Hook.State.{Shown, cbt_hook_proc, block_states, show_command, safe_set_state}
use seamlessrdp.Hook.Events.{Event, focus_asked, wndproc_hook_proc, wndprocret_hook_proc}
use seamlessrdp.Hook.Focus.{Visit, visits, safe_focus}
use seamlessrdp.Hook.Library.{Library, detach}
use seamlessrdp.Shell.Session.{Notice}
use seamlessrdp.Shell.Sync.{Listed, Sent, do_sync}
use seamlessrdp.Shell.Print.{notice_msgs, sync_msgs}
use seamlessrdp.Shell.Print.Synced.{IsListedTitle, notice_msgs-IsWritable, do_sync-IsWritable}
use seamlessrdp.Hook.Print.Args.{IsWritable}
use seamlessrdp.Hook.Print.Short.{IsWellFormed, print-IsWellFormed}
use seamlessrdp.Hook.Print.Written.{
  update_positions-IsWritable, check_move-IsWritable, add_borders-IsWritable,
  update_zorders-IsWritable, min_max-IsWritable, min_maxes-IsWritable, IsWritten,
}
use seamlessrdp.Hook.Print.Called.{
  IsTitled, both, wndproc_hook_proc-IsWritable, wndprocret_hook_proc-IsWritable,
}

cbt_hook_proc-IsWritable :
    (initialized : Bool) (sh : Blocks) (code : ℤ) (hwnd : ℕ) (style : Style) (show : ℕ)
    → All IsWritable (cbt_hook_proc initialized sh code hwnd style show)
unfolding cbt_hook_proc
cbt_hook_proc-IsWritable initialized sh code hwnd style show =
    ground (arith, min_max-IsWritable sh hwnd style show)

safe_move_window-IsWritable :
    (initialized : Bool) (sh : Blocks) (serial hwnd : ℕ) (p : Place) (now : Answers)
    (responds : Place → Response)
    → All IsWritable (safe_move_window initialized sh serial hwnd p now responds).0
unfolding safe_move_window
safe_move_window-IsWritable false sh serial hwnd p now responds = tt
safe_move_window-IsWritable true sh serial hwnd p now responds =
    let full = (add_borders now p).0 in
    let blocked = block_moves sh serial hwnd (rect_of full) in
    let w = responds full in
    let checked = check_move-IsWritable blocked hwnd (rect_of full) w in
    both (add_borders now p).1 _ (add_borders-IsWritable now p) (
      both (update_positions blocked hwnd w.notified) _
        (update_positions-IsWritable blocked hwnd w.notified) (tt, checked))

safe_zchange-IsWritable :
    (initialized : Bool) (sh : Blocks) (serial : ℕ) (w behind : Window)
    (responds : ℕ → List (List Window))
    → All IsWritable (safe_zchange initialized sh serial w behind responds).0
unfolding safe_zchange
safe_zchange-IsWritable false sh serial w behind responds = tt
safe_zchange-IsWritable true sh serial w behind responds =
    update_zorders-IsWritable (block_zchanges sh serial w.hwnd behind.hwnd) w
      (responds (insert_after w behind))

visits-IsWritable :
    (sh : Blocks) (vs : List Visit)
    → All (λ v. IsTitled v.window) vs
    → All IsWritable (visits sh vs).1
unfolding visits
visits-IsWritable sh [] t = tt
visits-IsWritable sh (v ∷ vs) t =
    both (wndprocret_hook_proc true (pos 0) sh v.window [] v.foreground focus_asked).1 _
      (wndprocret_hook_proc-IsWritable true (pos 0) sh v.window [] v.foreground focus_asked t.0)
      (visits-IsWritable sh vs t.1)

safe_focus-IsWritable :
    (initialized : Bool) (sh : Blocks) (serial hwnd : ℕ) (vs : List Visit)
    → All (λ v. IsTitled v.window) vs
    → All IsWritable (safe_focus initialized sh serial hwnd vs).0.1
unfolding safe_focus
safe_focus-IsWritable false sh serial hwnd vs t = tt
safe_focus-IsWritable true sh serial hwnd vs t = visits-IsWritable _ vs t

invalid-IsShort : (s : ℤ) → length (codes "Invalid state " ++ (print_int s ++ codes " sent.")) ≤ 255
invalid-IsShort s = omega (
  arith,
  (print_int-IsField s).short,
  length-append (codes "Invalid state ") (print_int s ++ codes " sent."),
  length-append (print_int s) (codes " sent."),
)

safe_set_state-IsWritable :
    (initialized : Bool) (sh : Blocks) (serial hwnd : ℕ) (s : ℤ) (style : Style)
    (responds : ℕ → List Shown)
    → ((q : ℕ) → All IsWritten (responds q))
    → All IsWritable (safe_set_state initialized sh serial hwnd s style responds).0
unfolding safe_set_state
safe_set_state-IsWritable initialized sh serial hwnd s style responds t =
    let blocked = block_states sh serial hwnd s in
    elim (Option-cases (show_command s)) [
      | inl gone ↦ ground (arith, gone, invalid-IsShort s)
      | inr (show, e) ↦
          ground (arith, e, min_maxes-IsWritable blocked hwnd (responds show) (t show))
    ]

-- The lists of messages that the exported functions and the hooks write in one call, and those of the
-- shell: its notices, and a synchronization. A title has at most 149 units.
pub data IsOutput : List Msg → Type 0 where
  called :
      (initialized : Bool) (code : ℤ) (sh : Blocks) (w : Facts) (e : Event)
      → IsTitled w
      → IsOutput (wndproc_hook_proc initialized code sh w e)
  returned :
      (initialized : Bool) (code : ℤ) (sh : Blocks) (w : Facts) (above : List Window)
      (foreground : ℕ) (e : Event)
      → IsTitled w
      → IsOutput (wndprocret_hook_proc initialized code sh w above foreground e).1
  shown :
      (initialized : Bool) (sh : Blocks) (code : ℤ) (hwnd : ℕ) (style : Style) (show : ℕ)
      → IsOutput (cbt_hook_proc initialized sh code hwnd style show)
  moved_by :
      (initialized : Bool) (sh : Blocks) (serial hwnd : ℕ) (p : Place) (now : Answers)
      (responds : Place → Response)
      → IsOutput (safe_move_window initialized sh serial hwnd p now responds).0
  ordered_by :
      (initialized : Bool) (sh : Blocks) (serial : ℕ) (w behind : Window)
      (responds : ℕ → List (List Window))
      → IsOutput (safe_zchange initialized sh serial w behind responds).0
  focused_by :
      (initialized : Bool) (sh : Blocks) (serial hwnd : ℕ) (vs : List Visit)
      → All (λ v. IsTitled v.window) vs
      → IsOutput (safe_focus initialized sh serial hwnd vs).0.1
  state_set_by :
      (initialized : Bool) (sh : Blocks) (serial hwnd : ℕ) (s : ℤ) (style : Style)
      (responds : ℕ → List Shown)
      → ((q : ℕ) → All IsWritten (responds q))
      → IsOutput (safe_set_state initialized sh serial hwnd s style responds).0
  detached : (pid : ℕ) (l : Library) (count : ℤ) → IsOutput (detach pid l count).0
  noticed : (ns : List Notice) → IsOutput (notice_msgs ns)
  synchronized :
      (fuel : ℕ) (all : List Listed) (out : List Sent)
      → All IsListedTitle all
      → do_sync fuel all ≡ some out
      → IsOutput (sync_msgs out)

IsOutput-IsWritable : (out : List Msg) → IsOutput out → All IsWritable out
unfolding detach
IsOutput-IsWritable _ (called i c sh w e t) = wndproc_hook_proc-IsWritable i c sh w e t
IsOutput-IsWritable _ (returned i c sh w above f e t) =
    wndprocret_hook_proc-IsWritable i c sh w above f e t
IsOutput-IsWritable _ (shown i sh c h st show) = cbt_hook_proc-IsWritable i sh c h st show
IsOutput-IsWritable _ (moved_by i sh serial h p now r) =
    safe_move_window-IsWritable i sh serial h p now r
IsOutput-IsWritable _ (ordered_by i sh serial w b r) = safe_zchange-IsWritable i sh serial w b r
IsOutput-IsWritable _ (focused_by i sh serial h vs t) = safe_focus-IsWritable i sh serial h vs t
IsOutput-IsWritable _ (state_set_by i sh serial h s st r t) =
    safe_set_state-IsWritable i sh serial h s st r t
IsOutput-IsWritable _ (detached pid l count) = (tt, tt)
IsOutput-IsWritable _ (noticed ns) = notice_msgs-IsWritable ns
IsOutput-IsWritable _ (synchronized fuel all out t e) = do_sync-IsWritable fuel all out t e

-- Where titles have at most 149 units, each message that a hook or an exported function writes in one
-- call, whatever Windows answers, and each that the shell writes as a notice or in a synchronization, is
-- well formed on its way to the client: it fits, and is one printable line of its own fields. Of the
-- window hooks that run inside ShowWindow this is so if their texts fit.
pub IsOutput-IsWellFormed : (out : List Msg) → IsOutput out → All IsWellFormed out
IsOutput-IsWellFormed out h =
    All-map IsWritable IsWellFormed out print-IsWellFormed (IsOutput-IsWritable out h)
