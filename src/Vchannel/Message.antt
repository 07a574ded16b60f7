-- ===== src/Vchannel/Message.antt =====
-- What passes through the shared buffer, seen as a queue of messages: the abstract view of the ring
-- that `vchannel_write` and `vchannel_process` of ServerExe/vchannel.c implement.
pub mod Stored
use seamlessrdp.Base.{ℕ, suc, ◌+◌, ◌<◌, ◌≡◌, List, [], ◌∷◌, ◌++◌, Bytes, IsText, All, length}
use seamlessrdp.Vchannel.Buffer.{Buffer, put_string, max_line}
use seamlessrdp.Vchannel.Buffer.Window.{contents}

pub record Message : Type 0 where
  pub command : Bytes
  pub args : Bytes

-- Two texts that fit the arrays `command` and `args` of `vchannel_process`, with their NULs.
pub record IsShort (m : Message) : Type 0 where
  pub command_text : IsText m.command
  pub args_text : IsText m.args
  pub command_fits : length m.command < max_line
  pub args_fits : length m.args < max_line

-- `strlen(command) + 1 + strlen(args) + 1`
abbrev pub message_size : Message → ℕ
message_size m = length m.command + 1 + length m.args + 1

abbrev pub encode : List Message → Bytes
encode [] = []
encode (m ∷ q) = m.command ++ 0 ∷ (m.args ++ 0 ∷ encode q)

-- The unread bytes are exactly the messages of `q`, oldest first.
abbrev pub Holds : Buffer → List Message → Type 0
Holds b q = contents b ≡ encode q

-- the two loops at the end of `vchannel_write`
unfoldable pub store : Buffer → Message → Buffer
unfolding put_string
store b m = put_string (put_string b m.command) m.args
