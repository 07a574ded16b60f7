-- ===== src/Shell/Box/Counted.antt =====
-- The counter is the number of boxes on the screen, and a session does not end under one.
use seamlessrdp.Base.{
  ℕ, ◌+◌, ◌≡◌, ◌≢◌, refl, true, false, inl, inr, List, [], ◌∷◌, ◌++◌, Option, arith, Bool-cases,
}
use seamlessrdp.Shell.Session.{Process, Session, should_terminate}
use seamlessrdp.Shell.Session.Terminate.{timed_out, no_list, nothing_left, should_terminate-Ends}
use seamlessrdp.Shell.Box.{
  Thread, starting, showing, finished, Boxes, mbox_thread, Steps, asked, ran, Reached, start,
  then_step,
}

abbrev pub shown : List Thread → ℕ
shown [] = 0
shown (starting ∷ ts) = shown ts
shown (showing ∷ ts) = 1 + shown ts
shown (finished ∷ ts) = shown ts

shown-append : (ts us : List Thread) → shown (ts ++ us) ≡ shown ts + shown us
shown-append [] us = ground arith
shown-append (starting ∷ ts) us = shown-append ts us
shown-append (showing ∷ ts) us = ground (arith, shown-append ts us)
shown-append (finished ∷ ts) us = shown-append ts us

shown-mbox_thread :
    (n : ℕ) (before after : List Thread) (t : Thread)
    → n ≡ shown (before ++ t ∷ after)
    → (mbox_thread t n).1 ≡ shown (before ++ (mbox_thread t n).0 ∷ after)
unfolding mbox_thread
shown-mbox_thread n before after starting h =
    omega (arith, h, shown-append before (starting ∷ after), shown-append before (showing ∷ after))
shown-mbox_thread n before after showing h =
    omega (arith, h, shown-append before (showing ∷ after), shown-append before (finished ∷ after))
shown-mbox_thread n before after finished h = h

Steps-shown :
    (b c : Boxes) → Steps b c → b.mbox_cnt ≡ shown b.threads → c.mbox_cnt ≡ shown c.threads
Steps-shown b _ (asked _) h = h
Steps-shown _ _ (ran n before after t) h = shown-mbox_thread n before after t h

Reached-shown : (b : Boxes) → Reached b → b.mbox_cnt ≡ shown b.threads
Reached-shown _ start = refl
Reached-shown _ (then_step b c r s) = Steps-shown b c s (Reached-shown b r)

-- In whatever order the threads of message boxes have run, `g_mbox_cnt` is the number of boxes on the
-- screen; and while there is one, a session with a connection does not end.
pub Reached-stays :
    (b : Boxes)
    → Reached b
    → (b.mbox_cnt ≡ shown b.threads)
      × ((now : ℕ) (procs : Option (List Process)) (s : Session)
          → s.connected ≡ true
          → shown b.threads ≢ 0
          → should_terminate now b.mbox_cnt procs s ≡ false)
Reached-stays b r =
    let count = Reached-shown b r in
    (
      count,
      λ now procs s on some_box. elim (Bool-cases (should_terminate now b.mbox_cnt procs s)) [
        | inr stays ↦ stays
        | inl over ↦ elim ((should_terminate-Ends now b.mbox_cnt procs s).0 over) [
          | timed_out off ne started late ↦ absurd (ground arith)
          | no_list unset closed gone ↦ absurd (some_box (ground arith))
          | nothing_left ps unset closed e all ↦ absurd (some_box (ground arith))
        ]
      ],
    )
