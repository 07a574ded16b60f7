-- ===== src/Shell/Input/Tests.antt =====
-- Two commands that come in one piece, the first of them begun before.
use seamlessrdp.Base.{
  ◌≡◌, refl, false, List, [], ◌∷◌, ◌++◌, some, none, Bytes, codes, map, arith, replicate,
}
use seamlessrdp.Vchannel.Read.{Reader}
use seamlessrdp.Vchannel.Read.Line.{Shows}
use seamlessrdp.Shell.Escape.{unescape, escape_at}
use seamlessrdp.Shell.Tokens.{get_tokens, get_token, split_comma}
use seamlessrdp.Shell.Command.{sync, handle_line, handle_tokens, dispatch, c_string, equal}
use seamlessrdp.Shell.Input.{process_cmds, returned}
use seamlessrdp.Shell.Input.Lines.{IsSurvived, arriving, process_cmds-lines}

-- "SY" has been read, and stands at the start of the array.
abbrev begun : Reader
begun = record { overflow_mode = false; buffer = codes "SY" ++ replicate 1022 0; size = 2 }

begun-Shows : Shows begun (codes "SY")
begun-Shows = record { tail = replicate 1022 0; layout = refl; count = refl; whole = refl }

abbrev two_lines : List Bytes
two_lines = codes "SYNC" ∷ codes "BYE" ∷ []

sync-IsSurvived : IsSurvived (codes "SYNC")
unfolding handle_line unescape escape_at get_tokens get_token split_comma handle_tokens dispatch
    c_string equal
sync-IsSurvived = (some sync, none, refl)

bye-IsSurvived : IsSurvived (codes "BYE")
unfolding handle_line unescape escape_at get_tokens get_token split_comma handle_tokens dispatch
    c_string equal
bye-IsSurvived = (none, none, refl)

process_cmds-lines_example :
    ((process_cmds (arriving (codes "NC\nBYE\n") 2) begun).handled ≡ map handle_line two_lines)
    × ((process_cmds (arriving (codes "NC\nBYE\n") 2) begun).ending ≡ returned)
process_cmds-lines_example =
    process_cmds-lines two_lines begun (codes "SY") (codes "NC\nBYE\n") refl begun-Shows refl
      (omega arith) (omega arith, (omega arith, tt)) (sync-IsSurvived, (bye-IsSurvived, tt))
