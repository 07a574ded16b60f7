-- ===== src/Shell/Print.antt =====
-- The calls of `vchannel_write` in ServerExe/main.c: HELLO, HIDE and UNHIDE in `WinMain`, and what
-- `do_sync` and `enum_cb` send.
pub mod Synced
use seamlessrdp.Base.{List, [], ◌∷◌}
use seamlessrdp.Hook as Hook
use seamlessrdp.Hook.{Msg}
use seamlessrdp.Shell.Session.{Notice, hello, hide, unhide}
use seamlessrdp.Shell.Sync.{Sent, sent, sync_begin, sync_end, pumped}

unfoldable pub notice_msgs : List Notice → List Msg
notice_msgs [] = []
notice_msgs (hello flags ∷ ns) = Hook.hello flags ∷ notice_msgs ns
notice_msgs (hide ∷ ns) = Hook.hide ∷ notice_msgs ns
notice_msgs (unhide ∷ ns) = Hook.unhide ∷ notice_msgs ns

unfoldable pub sync_msgs : List Sent → List Msg
sync_msgs [] = []
sync_msgs (sent m ∷ out) = m ∷ sync_msgs out
sync_msgs (sync_begin ∷ out) = Hook.sync_begin ∷ sync_msgs out
sync_msgs (sync_end ∷ out) = Hook.sync_end ∷ sync_msgs out
sync_msgs (pumped ∷ out) = sync_msgs out
