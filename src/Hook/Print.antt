-- ===== src/Hook/Print.antt =====
-- The calls of `vchannel_write` in ServerExe/hookdll.c and ServerExe/main.c, and that of
-- `vchannel_debug` in ServerExe/vchannel.c, with their formats: the texts that stand in the shared buffer.
pub mod Args
pub mod Short
pub mod Written
pub mod Called
pub mod Output
mod Tests
use seamlessrdp.Base.{ℕ, List, [], ◌∷◌, ◌++◌, Bytes, codes}
use seamlessrdp.Base.Int.{ℤ, to_u32}
use seamlessrdp.Shell.Tokens.Fields.{join}
use seamlessrdp.Vchannel.Text.{strfilter}
use seamlessrdp.Vchannel.Serial.{decimal}
use seamlessrdp.Vchannel.Format.{print_hex, print_int}
use seamlessrdp.Vchannel.Message.{Message}
use seamlessrdp.Hook.{
  Msg, create, title, set_icon, del_icon, position, zchange, state, destroy, destroy_group, ack,
  debug, hello, hide, unhide, sync_begin, sync_end, listed_title,
}

unfoldable pub command_of : Msg → Bytes
command_of (create h pid parent flags) = codes "CREATE"
command_of (title h text) = codes "TITLE"
command_of (set_icon h i side text) = codes "SETICON"
command_of (del_icon h side) = codes "DELICON"
command_of (position h x y width height) = codes "POSITION"
command_of (zchange h behind flags) = codes "ZCHANGE"
command_of (state h s) = codes "STATE"
command_of (destroy h) = codes "DESTROY"
command_of (destroy_group pid) = codes "DESTROYGRP"
command_of (ack serial) = codes "ACK"
command_of (debug text) = codes "DEBUG"
command_of (hello flags) = codes "HELLO"
command_of hide = codes "HIDE"
command_of unhide = codes "UNHIDE"
command_of sync_begin = codes "SYNCBEGIN"
command_of sync_end = codes "SYNCEND"
command_of (listed_title h text) = codes "TITLE"

-- What the format has before its first comma, and between the commas behind it. That of DESTROYGRP has
-- a blank behind its comma.
unfoldable pub fields_of : Msg → Bytes × List Bytes
fields_of (create h pid parent flags) =
    (print_hex h, print_hex pid ∷ print_hex parent ∷ print_hex flags ∷ [])
fields_of (title h text) = (print_hex h, text ∷ print_hex 0 ∷ [])
fields_of (set_icon h i side text) =
    (print_hex h, decimal i ∷ codes "RGBA" ∷ decimal side ∷ decimal side ∷ text ∷ [])
fields_of (del_icon h side) = (print_hex h, codes "RGBA" ∷ decimal side ∷ decimal side ∷ [])
fields_of (position h x y width height) =
    (print_hex h, print_int x ∷ print_int y ∷ print_int width ∷ print_int height ∷ print_hex 0 ∷ [])
fields_of (zchange h behind flags) = (print_hex h, print_hex behind ∷ print_hex flags ∷ [])
fields_of (state h s) = (print_hex h, print_hex (to_u32 s) ∷ print_hex 0 ∷ [])
fields_of (destroy h) = (print_hex h, print_hex 0 ∷ [])
fields_of (destroy_group pid) = (print_hex pid, (b' ' ∷ print_hex 0) ∷ [])
fields_of (ack serial) = (decimal serial, [])
fields_of (debug text) = (strfilter text, [])
fields_of (hello flags) = (print_hex flags, [])
fields_of hide = (print_hex 0, [])
fields_of unhide = (print_hex 0, [])
fields_of sync_begin = (codes "0x0", [])
fields_of sync_end = (codes "0x0", [])
fields_of (listed_title h text) = (print_hex h, text ∷ codes "0x0" ∷ [])

-- the call of `vchannel_write`
unfoldable pub print : Msg → Message
unfolding command_of fields_of
print m = record { command = command_of m; args = join (fields_of m).0 (fields_of m).1 }
