-- ===== src/Helper/Pump.antt =====
-- The helper serves its messages until the first one that ends it.
use seamlessrdp.Base.{ℕ, ◌≡◌, refl, true, List, [], ◌∷◌, ◌++◌, none, some, Bytes, codes, map}
use seamlessrdp.Shell.Main.{library_name}
use seamlessrdp.Helper.{
  Got, some_message, quit, failure, Found, message, set_hooks, create_window, dispatch,
  free_library, Work, close_hookdll, message_loop, with_hookdll, win_main,
}

-- Messages, and then nothing more so far or the end.
pub data Pumps : List Got → Work → Type 0 where
  waiting :
      (ms : List ℕ)
      → Pumps (map some_message ms) (record { calls = map dispatch ms; result = none })
  quits :
      (ms : List ℕ) (rest : List Got)
      → Pumps
          (map some_message ms ++ quit ∷ rest)
          (record { calls = map dispatch ms ++ free_library ∷ []; result = some 0 })
  fails :
      (ms : List ℕ) (rest : List Got)
      → Pumps (map some_message ms ++ failure ∷ rest) (record {
        calls = map dispatch ms ++ message (codes "GetMessage failed") ∷ free_library ∷ [];
        result = some 0;
      })

Pumps-more :
    (m : ℕ) (got : List Got) (w : Work)
    → Pumps got w
    → Pumps (some_message m ∷ got) (record { calls = dispatch m ∷ w.calls; result = w.result })
Pumps-more m _ _ (waiting ms) = waiting (m ∷ ms)
Pumps-more m _ _ (quits ms rest) = quits (m ∷ ms) rest
Pumps-more m _ _ (fails ms rest) = fails (m ∷ ms) rest

message_loop-Pumps : (got : List Got) → Pumps got (message_loop got)
unfolding message_loop close_hookdll
message_loop-Pumps [] = waiting []
message_loop-Pumps (some_message m ∷ got) =
    Pumps-more m got (message_loop got) (message_loop-Pumps got)
message_loop-Pumps (quit ∷ got) = quits [] got
message_loop-Pumps (failure ∷ got) = fails [] got

-- Where the library loads and has its functions, the helper sets the hooks, creates its window and
-- dispatches exactly the messages that come before the first WM_QUIT or failure; with that it frees the
-- library and returns 0, after a message box for a failure; and before that it waits.
pub win_main-Pumps :
    (f : Found) (name : Bytes)
    → library_name f.architecture ≡ some name
    → f.loads ≡ true
    → f.set_hooks ≡ true
    → f.get_instance_count ≡ true
    → (w : Work) × (Pumps f.got w
        × (win_main f ≡ record { calls = set_hooks ∷ create_window ∷ w.calls; result = w.result }))
unfolding win_main with_hookdll
win_main-Pumps f name known loads set count = (
  message_loop f.got,
  (message_loop-Pumps f.got, rw (win_main, known, loads, with_hookdll, set, count) refl),
)
