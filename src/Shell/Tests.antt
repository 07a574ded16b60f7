-- ===== src/Shell/Tests.antt =====
-- Commands of the client.
use seamlessrdp.Base.{
  ◌<◌, ◌≡◌, ◌≢◌, ◌↔◌, refl, List, [], ◌∷◌, ◌++◌, none, some, Bytes, codes, arith, replicate,
}
use seamlessrdp.Base.Int.{pos, negsuc}
use seamlessrdp.Shared.{long_to_hwnd}
use seamlessrdp.Shell.Escape.{unescape, escape_at, scan_spaced, scan_hex2, hex_value, is_space}
use seamlessrdp.Shell.Escape.Percent.{literals, Encodes, nil, literal, escaped, unescape-Encodes}
use seamlessrdp.Shell.Tokens.{get_tokens, get_token, split_comma}
use seamlessrdp.Shell.Number.{strtoul, strtol, read_signed, read_magnitude}
use seamlessrdp.Shell.Command.{
  sync, set_state, move_window, done, crashed, overrun, handle_line, handle_tokens, dispatch,
  c_string, equal,
}
use seamlessrdp.Shell.Command.Carried.{handle_line-carried}
use seamlessrdp.Vchannel.Serial.{decimal, decimal_onto}
use seamlessrdp.Vchannel.Format.{print_hex, hex_digits, hex_digit, print_int}
use seamlessrdp.Shell.Command.Arity.{IsLineOf, arity, handle_line-crashed_iff}

numbers :
    (strtoul (codes "0x0001f") ≡ 31)
    × (strtoul (codes " 017") ≡ 15)
    × (strtoul (codes "-1") ≡ 0xFFFF_FFFF)
    × (strtol (codes "-12") ≡ negsuc 11)
    × (strtol (codes "0xffffffff") ≡ pos 0x7FFF_FFFF)
unfolding strtoul strtol read_signed read_magnitude hex_value is_space
numbers = (refl, refl, refl, refl, refl)

handled :
    (handle_line (codes "POSITION,1,0x20,-8,%30,10,20")
      ≡ done (some (move_window 1 32 (negsuc 7) (pos 0) (pos 10) (pos 20))) none)
    × (handle_line (codes "FOCUS,1") ≡ crashed)
    × (handle_line (codes "SYNC%4") ≡ overrun)
    × (handle_line (codes "SYNC,1,2,3,4,5,6,7,8") ≡ done (some sync) (some (codes "8")))
unfolding handle_line unescape escape_at scan_spaced scan_hex2 hex_value is_space get_tokens
    get_token split_comma handle_tokens dispatch c_string equal strtoul strtol read_signed
    read_magnitude long_to_hwnd
handled = (refl, refl, refl, refl)

-- "a%2Cb"
a_comma_b : Encodes (codes "a%2Cb") (codes "a,b")
unfolding hex_value
a_comma_b = literal (omega arith) (escaped refl refl (literal (omega arith) nil))

unescape-Encodes_example : unescape (codes "a%2Cb") ≡ some (codes "a,b")
unescape-Encodes_example = unescape-Encodes a_comma_b

unescape_comma : unescape (codes "a%2Cb") ≡ some (codes "a,b")
unfolding unescape escape_at scan_spaced scan_hex2 hex_value is_space
unescape_comma = refl

focus_line : IsLineOf (codes "FOCUS,1") (codes "FOCUS") (codes "1" ∷ [])
focus_line = record {
  encodes = literals (codes "FOCUS,1") (omega arith);
  name_text = omega arith;
  args_text = omega arith;
  name_field = omega arith;
  args_field = omega arith;
}

handle_line-crashed_iff_example :
    ((handle_line (codes "FOCUS,1") ≡ crashed) ↔ (1 < arity (codes "FOCUS")))
    × (handle_line (codes "FOCUS,1") ≢ overrun)
handle_line-crashed_iff_example =
    handle_line-crashed_iff (codes "FOCUS,1") (codes "FOCUS") (codes "1" ∷ []) focus_line
      (omega arith)

sync_line : IsLineOf (codes "SYNC") (codes "SYNC") []
sync_line = record {
  encodes = literals (codes "SYNC") (omega arith);
  name_text = omega arith;
  args_text = tt;
  name_field = omega arith;
  args_field = tt;
}

sync_handled : handle_line (codes "SYNC") ≡ done (some sync) none
unfolding handle_line unescape escape_at get_tokens get_token split_comma handle_tokens dispatch
    c_string equal
sync_handled = refl

abbrev seven : List Bytes
seven = replicate 7 (codes "1")

long_line : IsLineOf (codes "SYNC,1,1,1,1,1,1,1,8") (codes "SYNC") (seven ++ codes "8" ∷ [])
long_line = record {
  encodes = literals (codes "SYNC,1,1,1,1,1,1,1,8") (omega arith);
  name_text = omega arith;
  args_text = omega arith;
  name_field = omega arith;
  args_field = omega arith;
}

long_handled : handle_line (codes "SYNC,1,1,1,1,1,1,1,8") ≡ done (some sync) (some (codes "8"))
unfolding handle_line unescape escape_at get_tokens get_token split_comma handle_tokens dispatch
    c_string equal
long_handled = refl

handle_line-carried_example :
    handle_line (codes "STATE,7,0x0002002a,1,0x00000000")
    ≡ done (some (set_state 7 (long_to_hwnd 0x2002A) (pos 1))) none
unfolding decimal decimal_onto print_hex hex_digits hex_digit print_int
handle_line-carried_example =
    handle_line-carried (set_state 7 0x2002A (pos 1)) (codes "0x00000000" ∷ [])
      (codes "STATE,7,0x0002002a,1,0x00000000") (omega arith, omega arith, omega arith)
      ((omega arith, omega arith), tt)
      (literals (codes "STATE,7,0x0002002a,1,0x00000000") (omega arith)) (omega arith)
