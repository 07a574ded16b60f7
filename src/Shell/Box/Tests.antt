-- ===== src/Shell/Box/Tests.antt =====
-- Two boxes are asked for, and the older one is shown.
use seamlessrdp.Base.{ℕ, ◌≡◌, ◌≢◌, true, false, List, [], ◌∷◌, Option}
use seamlessrdp.Shell.Session.{Process, Session, should_terminate}
use seamlessrdp.Shell.Box.{
  Boxes, starting, showing, asked, ran, Reached, start, then_step, mbox_thread,
}
use seamlessrdp.Shell.Box.Counted.{shown, Reached-stays}

abbrev boxes : Boxes
boxes = record { mbox_cnt = 1; threads = starting ∷ showing ∷ [] }

boxes-Reached : Reached boxes
unfolding mbox_thread
boxes-Reached =
    then_step _ boxes
      (then_step _ _ (then_step _ _ start (asked (record { mbox_cnt = 0; threads = [] })))
        (asked (record { mbox_cnt = 0; threads = starting ∷ [] })))
      (ran 0 (starting ∷ []) [] starting)

Reached-stays_example :
    (boxes.mbox_cnt ≡ shown boxes.threads)
    × ((now : ℕ) (procs : Option (List Process)) (s : Session)
        → s.connected ≡ true
        → shown boxes.threads ≢ 0
        → should_terminate now boxes.mbox_cnt procs s ≡ false)
Reached-stays_example = Reached-stays boxes boxes-Reached
