-- ===== src/Shell/Main/Welcome.antt =====
-- What the client learns of the desktop over a whole session.
use seamlessrdp.Base.{
  ℕ, ◌≡◌, refl, ap, ◌∙◌, Bool, inl, inr, List, [], ◌∷◌, ◌++◌, Option, none, some, Bool-cases, map,
  append-nil,
}
use seamlessrdp.Base.Int.{pos}
use seamlessrdp.Shell.Session.{Session, Notice, Round, session_loop}
use seamlessrdp.Shell.Session.Rounds.{view, view-session_loop}
use seamlessrdp.Shell.Launch.{Act, launch_helper, kill_15_9}
use seamlessrdp.Shell.Main.{
  Answers, Deed, load_library, free_library, open_channel, of_process, write, set_hooks,
  remove_hooks, set_parameters, exit_windows, close_hookdll, log_off, stop_helper, finish,
  first_session, greeting, serve,
}

-- the messages among the deeds
pub notices_of : List Deed → List Notice
notices_of [] = []
notices_of (write m ∷ ds) = m ∷ notices_of ds
notices_of (load_library name ∷ ds) = notices_of ds
notices_of (free_library ∷ ds) = notices_of ds
notices_of (open_channel ∷ ds) = notices_of ds
notices_of (of_process a ∷ ds) = notices_of ds
notices_of (set_hooks ∷ ds) = notices_of ds
notices_of (remove_hooks ∷ ds) = notices_of ds
notices_of (set_parameters ∷ ds) = notices_of ds
notices_of (exit_windows ∷ ds) = notices_of ds

notices_of-processes :
    (acts : List Act) (ds : List Deed) → notices_of (map of_process acts ++ ds) ≡ notices_of ds
unfolding notices_of
notices_of-processes [] ds = refl
notices_of-processes (a ∷ acts) ds = notices_of-processes acts ds

notices_of-writes :
    (ms : List Notice) (ds : List Deed) → notices_of (map write ms ++ ds) ≡ ms ++ notices_of ds
unfolding notices_of
notices_of-writes [] ds = refl
notices_of-writes (m ∷ ms) ds = ap (◌∷◌ m) (notices_of-writes ms ds)

notices_of-finish : (a : Answers) (helper : Option ℕ) → notices_of (finish a helper).deeds ≡ []
unfolding finish close_hookdll log_off stop_helper notices_of
notices_of-finish a none = refl
notices_of-finish a (some process) =
    notices_of-processes (kill_15_9 process a.window a.wait a.terminated)
      (free_library ∷ exit_windows ∷ [])

notices_of-serve :
    (a : Answers) (rounds : List Round)
    → notices_of (serve a rounds).deeds
      ≡ greeting (first_session a) ∷ (session_loop rounds (pos 5) (first_session a)).2
unfolding serve notices_of
notices_of-serve a rounds =
    let (launching, helper) = launch_helper a.converts a.architecture a.helper a.idle in
    let s = first_session a in
    let (over, last, notices) = session_loop rounds (pos 5) s in
    elim (Bool-cases over) [
      | inl ends ↦
          rw
            (
              serve,
              ends,
              notices_of-processes launching,
              notices_of-writes notices,
              notices_of-finish a helper,
              append-nil,
            )
            refl
      | inr goes ↦
          rw (serve, goes, notices_of-processes launching, notices_of-writes notices, append-nil)
            refl
    ]

view-greeting :
    (h : Bool) (s : Session) (ms : List Notice)
    → view h (greeting s ∷ ms) ≡ view s.desktop_hidden ms
unfolding greeting
view-greeting h s ms = elim (Bool-cases s.desktop_hidden) [
  | inl hidden ↦ rw (greeting, hidden) refl
  | inr plain ↦ rw (greeting, plain) refl
]

-- Whatever the client took the desktop for, after the HELLO and the messages of any number of rounds,
-- and those of the end of the session if it has ended, it has the shell's own view of it.
pub view-serve :
    (h : Bool) (a : Answers) (rounds : List Round)
    → view h (notices_of (serve a rounds).deeds)
      ≡ (session_loop rounds (pos 5) (first_session a)).1.desktop_hidden
view-serve h a rounds =
    let s = first_session a in
    ap (view h) (notices_of-serve a rounds)
    ∙ view-greeting h s (session_loop rounds (pos 5) s).2
    ∙ view-session_loop rounds (pos 5) s
