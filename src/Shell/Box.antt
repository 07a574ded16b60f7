-- ===== src/Shell/Box.antt =====
-- The message boxes of ServerExe/main.c: `messageW` and the threads of `mbox_thread`, with the counter
-- `g_mbox_cnt`.
pub mod Counted
mod Tests
use seamlessrdp.Base.{ℕ, ◌+◌, ◌-◌, ◌≡◌, List, [], ◌∷◌, ◌++◌}

-- Where a thread stands: before its InterlockedIncrement, in MessageBoxW, or behind its
-- InterlockedDecrement.
pub data Thread : Type 0 where
  starting : Thread
  showing : Thread
  finished : Thread

pub record Boxes : Type 0 where
  pub mbox_cnt : ℕ
  pub threads : List Thread

-- `messageW`: a new thread
abbrev pub message_w : Boxes → Boxes
message_w b = record b { threads = starting ∷ b.threads }

-- The next part of a thread's code, up to MessageBoxW or to the end.
unfoldable pub mbox_thread : Thread → ℕ → Thread × ℕ
mbox_thread starting n = (showing, n + 1)
mbox_thread showing n = (finished, n - 1)
mbox_thread finished n = (finished, n)

-- Any thread runs on, or the shell asks for a box.
pub data Steps : Boxes → Boxes → Type 0 where
  asked : (b : Boxes) → Steps b (message_w b)
  ran :
      (n : ℕ) (before after : List Thread) (t : Thread)
      → Steps
          (record { mbox_cnt = n; threads = before ++ t ∷ after })
          (record {
            mbox_cnt = (mbox_thread t n).1;
            threads = before ++ (mbox_thread t n).0 ∷ after;
          })

-- what can come about from the start
pub data Reached : Boxes → Type 0 where
  start : Reached (record { mbox_cnt = 0; threads = [] })
  then_step : (b c : Boxes) → Reached b → Steps b c → Reached c
