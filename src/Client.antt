-- ===== src/Client.antt =====
-- ClientDLL/clipper.cpp and windowdata.cpp: the client's plug-in, which clips its window to the windows
-- of the server. This module has the data of a window, and what the plug-in uses of the string
-- tokenizer and of the hash table, which are copies of other authors' code.
pub mod Parse
pub mod Clip
pub mod Sound
pub mod Shown
pub mod Life
mod Samples
mod Tests
use seamlessrdp.Base.{ℕ, ◌≡◌, ◌≢◌, List, [], ◌∷◌, Option, none, some, Bytes}
use seamlessrdp.Base.Int.{ℤ, pos}
use mathlib.Core.List.{Memᴰ}

-- CWindowData; `taskbar` is `TaskbarWindowHandle`, which the constructor leaves uninitialized (`none`).
pub record WindowData : Type 0 where
  pub id : Bytes
  pub title : Bytes
  pub x1 : ℤ
  pub y1 : ℤ
  pub x2 : ℤ
  pub y2 : ℤ
  pub taskbar : Option ℕ

-- the constructor
abbrev pub new_window_data : WindowData
new_window_data = record {
  id = [];
  title = [];
  x1 = pos 0;
  y1 = pos 0;
  x2 = pos 0;
  y2 = pos 0;
  taskbar = none;
}

-- The results of `CTokenizer::Next` for a delimiter and a text, until it returns false.
abbrev pub Tokenizer : Type 0
Tokenizer = ℕ → Bytes → List Bytes

-- `hash_table` with its functions, whose data are pointers; `construct` is what
-- `hash_construct_table` makes, and `entries` are the calls of `hash_enumerate`.
pub record HashTable : Type 1 where
  pub State : Type 0
  pub construct : State
  pub insert : Bytes → ℕ → State → State
  pub lookup : Bytes → State → Option ℕ
  pub del : Bytes → State → Option ℕ × State
  pub entries : State → List (Bytes × ℕ)

-- The documented behaviour of the functions, while memory can be had.
pub record Maps (T : HashTable) : Type 0 where
  pub constructed : (k : Bytes) → T.lookup k T.construct ≡ none
  pub insert_same : (k : Bytes) (p : ℕ) (s : T.State) → T.lookup k (T.insert k p s) ≡ some p
  pub insert_other :
      (k j : Bytes) (p : ℕ) (s : T.State) → j ≢ k → T.lookup j (T.insert k p s) ≡ T.lookup j s
  pub del_found : (k : Bytes) (s : T.State) → (T.del k s).0 ≡ T.lookup k s
  pub del_same : (k : Bytes) (s : T.State) → T.lookup k (T.del k s).1 ≡ none
  pub del_other : (k j : Bytes) (s : T.State) → j ≢ k → T.lookup j (T.del k s).1 ≡ T.lookup j s
  pub visited :
      (k : Bytes) (p : ℕ) (s : T.State) → Memᴰ (k, p) (T.entries s) → T.lookup k s ≡ some p
  pub visits : (k : Bytes) (p : ℕ) (s : T.State) → T.lookup k s ≡ some p → Memᴰ (k, p) (T.entries s)
