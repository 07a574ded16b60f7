-- ===== src/Shell/Command.antt =====
-- The body of the loop of `process_cmds` in ServerExe/main.c, and the `do_*` functions that it calls,
-- down to the calls that leave the file.
pub mod Arity
pub mod Equal
pub mod Carried
use seamlessrdp.Base.{
  ℕ, Bool, true, false, ◌&&◌, List, [], ◌∷◌, Option, none, some, Bytes, codes, ◌==◌, if◌then◌else◌,
  get_or,
}
use seamlessrdp.Base.Int.{ℤ}
use seamlessrdp.Shared.{long_to_hwnd}
use seamlessrdp.Shell.Escape.{unescape}
use seamlessrdp.Shell.Tokens.{get_tokens}
use seamlessrdp.Shell.Number.{strtoul, strtol}

-- `do_sync`, …, `do_persistent`, with their arguments. `set_state`, `move_window`, `zchange` and `focus`
-- are the calls of the hook library's functions, and `destroy` is the WM_CLOSE that is sent.
pub data Call : Type 0 where
  sync : Call
  set_state : ℕ → ℕ → ℤ → Call
  move_window : ℕ → ℕ → ℤ → ℤ → ℤ → ℤ → Call
  zchange : ℕ → ℕ → ℕ → Call
  focus : ℕ → ℕ → Call
  destroy : ℕ → Call
  spawn : ℕ → Bytes → Call
  persistent : ℕ → ℤ → Call

-- `crashed` is a use of a NULL token, `overrun` the loop of `unescape` past its string. Of a line that
-- is handled, the `do_*` call if there is one, and where `p` points when it is freed: `none` is NULL, and
-- `some rest` a place inside the block.
pub data Handled : Type 0 where
  done : Option Call → Option Bytes → Handled
  crashed : Handled
  overrun : Handled

-- `strcmp(a, b) == 0`
unfoldable pub equal : Bytes → Bytes → Bool
equal [] [] = true
equal (a ∷ s) (b ∷ t) = a == b && equal s t
equal _ _ = false

abbrev pub ◌>>=◌ {ℓ κ} : {A : Type ℓ} {B : Type κ} → Option A → (A → Option B) → Option B
◌>>=◌ m f = elim m [ none ↦ none | some a ↦ f a ]

infixl 5 ◌>>=◌
-- `strtoul(tok, NULL, 0)` and `strtol(tok, NULL, 0)`, which cannot read NULL
abbrev pub number : Option Bytes → Option ℕ
number tok = do s ← tok; some (strtoul s)

abbrev pub integer : Option Bytes → Option ℤ
integer tok = do s ← tok; some (strtol s)

abbrev pub handle : Option Bytes → Option ℕ
handle tok = do s ← tok; some (long_to_hwnd (strtoul s))

-- The chain of `strcmp`; `toks` are `tok2`, `tok3`, …. The outer `none` is a crash, the inner one a
-- line that no branch takes.
unfoldable pub dispatch : Bytes → List (Option Bytes) → Option (Option Call)
dispatch name toks =
    let tok = λ (i : ℕ). get_or toks i none in
    if equal name (codes "SYNC")
    then some (some sync)
    else if equal name (codes "STATE")
    then (do
      serial ← number (tok 0)
      hwnd ← handle (tok 1)
      s ← integer (tok 2)
      some (some (set_state serial hwnd s)))
    else if equal name (codes "POSITION")
    then (do
      serial ← number (tok 0)
      hwnd ← handle (tok 1)
      x ← integer (tok 2)
      y ← integer (tok 3)
      width ← integer (tok 4)
      height ← integer (tok 5)
      some (some (move_window serial hwnd x y width height)))
    else if equal name (codes "ZCHANGE")
    then (do
      serial ← number (tok 0)
      hwnd ← handle (tok 1)
      behind ← handle (tok 2)
      some (some (zchange serial hwnd behind)))
    else if equal name (codes "FOCUS")
    then (do serial ← number (tok 0); hwnd ← handle (tok 1); some (some (focus serial hwnd)))
    else if equal name (codes "DESTROY")
    then (do hwnd ← handle (tok 1); some (some (destroy hwnd)))
    else if equal name (codes "SPAWN")
    then (do serial ← number (tok 0); cmd ← tok 1; some (some (spawn serial cmd)))
    else if equal name (codes "PERSISTENT")
    then (do
      serial ← number (tok 0)
      enable ← integer (tok 1)
      some (some (persistent serial enable)))
    else some none

-- an array of bytes as the C string that it starts with
unfoldable pub c_string : Bytes → Bytes
c_string [] = []
c_string (c ∷ cs) = if c == 0 then [] else c ∷ c_string cs

unfoldable pub handle_tokens : List (Option Bytes) × Option Bytes → Handled
handle_tokens ([], p) = crashed
handle_tokens (none ∷ toks, p) = crashed
handle_tokens (some name ∷ toks, p) = elim (dispatch name toks) [
  | none ↦ crashed
  | some call ↦ done call p
]

unfoldable pub handle_line : Bytes → Handled
unfolding handle_tokens
handle_line line = elim (unescape line) [
  | none ↦ overrun
  | some s ↦ handle_tokens (get_tokens 8 (some (c_string s)))
]
