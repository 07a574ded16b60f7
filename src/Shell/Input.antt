-- ===== src/Shell/Input.antt =====
-- `process_cmds` of ServerExe/main.c: the loop over the lines that the client has sent.
pub mod Lines
mod Tests
use seamlessrdp.Base.{ℕ, List, [], ◌∷◌, Option, Bytes}
use seamlessrdp.Vchannel.Buffer.{max_line}
use seamlessrdp.Vchannel.Read.{Reader, line, io_error, again, no_memory, read}
use seamlessrdp.Shell.Command.{Call, Handled, done, crashed, overrun, handle_line}

-- `returned` is the end of the loop by a failed read, `stopped` a line that crashes the shell, and
-- `reading` means that the answers of the channel given were not enough.
pub data Ending : Type 0 where
  returned : Ending
  stopped : Ending
  reading : Ending

-- What the loop has done: the lines handled, the state of `vchannel_read`, and how it ended.
pub record Input : Type 0 where
  pub handled : List Handled
  pub reader : Reader
  pub ending : Ending

abbrev pub handled_first : Handled → Input → Input
handled_first h i = record i { handled = h ∷ i.handled }

-- The answers of the channel, one for each call of `vchannel_read`.
unfoldable pub process_cmds : List (Option Bytes) → Reader → Input
process_cmds [] r = record { handled = []; reader = r; ending = reading }
process_cmds (chunk ∷ chunks) r =
    let r' = (read max_line chunk r).1 in
    let rest = process_cmds chunks r' in
    elim (read max_line chunk r).0 [
      | line l ↦ elim (handle_line l) [
        | done call p ↦ handled_first (done call p) rest
        | crashed ↦ record { handled = crashed ∷ []; reader = r'; ending = stopped }
        | overrun ↦ record { handled = overrun ∷ []; reader = r'; ending = stopped }
      ]
      | io_error ↦ record { handled = []; reader = r'; ending = returned }
      | again ↦ record { handled = []; reader = r'; ending = returned }
      | no_memory ↦ record { handled = []; reader = r'; ending = returned }
    ]
