-- ===== src/Client/Sound.antt =====
-- The pointers in the table of ClientDLL/clipper.cpp.
pub mod Pointers
pub mod Events
pub mod Outcome
use seamlessrdp.Base.{
  ℕ, ◌+◌, ◌<◌, ◌≡◌, ◌≢◌, refl, Bool, true, List, [], ◌∷◌, ◌++◌, Option, none, some, Bytes, codes,
}
use seamlessrdp.Shell.Command.{equal}
use seamlessrdp.Client.{WindowData, HashTable}
use seamlessrdp.Client.Parse.{Message}
use seamlessrdp.Client.Clip.{Act, Objects, object, Clipper}

-- A pointer to an object that is not deleted, with the window of that key, which has a taskbar window.
pub record IsLive (os : Objects) (k : Bytes) (p : ℕ) : Type 0 where
  pub window : WindowData
  pub handle : ℕ
  pub here : object os p ≡ some window
  pub named : window.id ≡ k
  pub taskbar : window.taskbar ≡ some handle

module _ (T : HashTable) where
  -- Every pointer in the table is one of these.
  abbrev pub IsSound : T.State → Objects → Type 0
  IsSound t os = (k : Bytes) (p : ℕ) → T.lookup k t ≡ some p → IsLive os k p

  -- a window is destroyed that is not in the table
  abbrev pub IsUnknown : T.State → Message → Type 0
  IsUnknown t m =
      (equal m.message_type (codes "HSHELL_WINDOWDESTROYED") ≡ true) × (T.lookup m.wid.id t ≡ none)
