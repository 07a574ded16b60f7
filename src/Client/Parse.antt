-- ===== src/Client/Parse.antt =====
-- How `VirtualChannelOpenEvent` of ClientDLL/clipper.cpp reads a message.
pub mod Fields
pub mod RoundTrip
pub mod Numbers
use seamlessrdp.Base.{
  ℕ, ◌+◌, ◌-◌, ◌*◌, ◌^◌, Bool, true, false, not, ◌&&◌, ◌||◌, List, [], ◌∷◌, Option, none, some,
  Bytes, codes, ltb, leb, ◌==◌, if◌then◌else◌, get_or, length,
}
use seamlessrdp.Base.Int.{ℤ, pos, negsuc}
use seamlessrdp.Shell.Escape.{is_space}
use seamlessrdp.Shell.Command.{equal}
use seamlessrdp.Shell.Number.{read_digits}
use seamlessrdp.Client.{WindowData, new_window_data, Tokenizer}

-- the value of the digits, cut at INT_MAX
abbrev pub read_int : Bytes → ℤ
read_int s = let n = read_digits 10 0 s in if leb (2 ^ 31) n then pos (2 ^ 31 - 1) else pos n

abbrev pub read_minus : Bytes → ℤ
read_minus s =
    let n = read_digits 10 0 s in
    if leb (2 ^ 31) n then negsuc (2 ^ 31 - 1) else if n == 0 then pos 0 else negsuc (n - 1)

-- `atoi`
unfoldable pub atoi : Bytes → ℤ
atoi [] = pos 0
atoi (c ∷ s) =
    let rest = atoi s in
    if is_space c
    then rest
    else if c == b'-'
    then read_minus s
    else if c == b'+'
    then read_int s
    else read_int (c ∷ s)

-- `strchr(s, '-') != NULL`
unfoldable pub has_minus : Bytes → Bool
has_minus [] = false
has_minus (c ∷ s) = c == b'-' || has_minus s

unfoldable pub coordinate : Bytes → ℤ
coordinate s = if not (has_minus s) then atoi s else pos 0

-- The variables of the loop.
pub record Message : Type 0 where
  pub wid : WindowData
  pub message_type : Bytes
  pub min_max_type : ℤ

module _ (tokens : Tokenizer) where
  -- "POS"; a call of `Next` that finds nothing leaves an empty string
  unfoldable pub read_pos : Bytes → WindowData → WindowData
  unfolding coordinate
  read_pos s w =
      let toks = tokens b'~' s in
      record w {
        x1 = coordinate (get_or toks 0 []);
        y1 = coordinate (get_or toks 1 []);
        x2 = coordinate (get_or toks 2 []);
        y2 = coordinate (get_or toks 3 []);
      }

  -- the chain of `strcmp` behind that of "MSG", with `msg` and what `Next` gives then
  unfoldable pub read_value : Bytes → Bytes → Message → Message
  unfolding read_pos atoi
  read_value msg value m =
      if equal msg (codes "ID")
      then record m { wid = record (m.wid) { id = value } }
      else if equal msg (codes "TITLE")
      then record m { wid = record (m.wid) { title = value } }
      else if equal msg (codes "POS")
      then record m { wid = read_pos value m.wid }
      else if equal msg (codes "TYPE")
      then record m { min_max_type = atoi value }
      else m

  -- the body of the loop; behind "MSG" it goes on with the value in `msg`
  unfoldable pub read_field : Bytes → Message → Message
  unfolding read_value
  read_field field m =
      let toks = tokens b'=' field in
      let msg = get_or toks 0 [] in
      let value = get_or toks 1 [] in
      if equal msg (codes "MSG")
      then read_value value (get_or toks 2 []) (record m { message_type = value })
      else read_value msg value m

  unfoldable pub read_fields : List Bytes → Message → Message
  unfolding read_field
  read_fields [] m = m
  read_fields (f ∷ fs) m = read_fields fs (read_field f m)

  abbrev pub new_message : Message
  new_message = record { wid = new_window_data; message_type = []; min_max_type = pos 0 }

  unfoldable pub read_message : Bytes → Message
  unfolding read_fields
  read_message s = read_fields (tokens b';' s) new_message

-- the bytes in front of the first NUL
unfoldable pub before_nul : Bytes → Option Bytes
before_nul [] = none
before_nul (c ∷ s) =
    let rest = before_nul s in
    if c == 0 then some [] else elim rest [ none ↦ none | some t ↦ some (c ∷ t) ]

-- `ourData`
abbrev pub our_size : ℕ
our_size = 1600

-- The text in `ourData` behind its `strncpy`. `none` is a write or a read behind the array.
unfoldable pub copy_data : Bytes → Option Bytes
unfolding before_nul
copy_data bytes = if ltb our_size (length bytes) then none else elim (before_nul bytes) [
  | some s ↦ some s
  | none ↦ if length bytes == our_size then none else some bytes
]
