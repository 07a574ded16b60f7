-- ===== src/Lib.antt =====
-- SeamlessRDP publishes single applications of a Windows server. On the server the shell
-- (ServerExe/main.c) runs as the session's program, and a library (ServerExe/hookdll.c) is hooked into
-- every process with windows. The hooks write messages into a ring buffer in shared memory
-- (ServerExe/vchannel.c); the shell forwards them over the virtual channel to the client and carries
-- out the commands that the client sends back.
--
-- The modules:
-- Base holds shared names, lists over the native numbers, and signed integers.
-- Shared is ServerExe/shared.c: window handles as `long` values, and Shared.Icon the pixels of icons.
-- Vchannel.Buffer is the ring of `buffer_t`: `has_room` is the test of the wait loop of
--   `vchannel_write`, `put_string` and `get_string` the copying loops of `vchannel_write` and
--   `vchannel_process`. Vchannel.Message sees the unread bytes as a queue of messages.
-- Vchannel.Write is `vchannel_write` with its setup branch. The wait loop runs over a list of turns,
--   each with the buffer as the other processes have left it and the answers of the waits; a list that
--   ends means that the process still waits.
-- Vchannel.Serial and Vchannel.Process are `vchannel_process`. The semaphore of the serial numbers and
--   the virtual channel belong to Windows: they are parameters, `Semaphore` with the hypotheses
--   `Counts`, and `accepts`, which answers a call from the calls before it. Vchannel.Process.Deliver is
--   the specification on queues.
-- Vchannel.System interleaves writers and the shell: what touches the buffer runs under one mutex.
-- Vchannel.Read is `vchannel_read`, with its static variables as a record.
-- Vchannel.Open has `vchannel_open`, `vchannel_close` and the short functions on the handles.
-- Vchannel.Text has `vchannel_strfilter`, `unicode_to_utf8` and `vchannel_strfilter_unicode`.
-- Shell.Escape, Shell.Tokens, Shell.Number and Shell.Command are `unescape`, `get_token`, the numbers
--   and the body of `process_cmds` in ServerExe/main.c, and Shell.Input is its loop.
--   Shell.Number.Printed and Shell.Command.Carried have the numbers and the lines that a client writes.
--   Shell.Request follows a line through the `do_*` functions into the functions of the hook library.
--   Shell.Session is `should_terminate`, `build_startup_procs` and the loop of `WinMain`, round by round.
--   Shell.Sync is `do_sync` with `enum_cb`, over the windows that EnumWindows reports.
-- Hook is ServerExe/hookdll.c. Hook.Position, Hook.State, Hook.Order and Hook.Focus each have the report
--   that a hook makes and the `Safe…` function that carries out the client's wish, with the block in
--   `shared_variables` between them; Hook.Events has the two window hooks, Hook.Icon `update_icon`, and
--   Hook.Library the hooks and the instance count of a process. What Windows answers is an argument: a
--   call that makes Windows run hooks takes a function from what it is told to what the hooks then see.
--   The messages are written down as values of `Msg`, in the order of the calls.
-- Hook.Print has the texts of these messages and of those of the shell, which Shell.Print lists, with
--   Vchannel.Format for the conversions of the formats; Hook.Stream follows them through the buffer and
--   the channel to the client.
-- Shell.Launch has the processes that the shell starts and stops, Shell.Box its message boxes, each a
--   thread, and Shell.Main `WinMain` around the loop: a run is the list of what it does, in order.
-- Helper is ServerExe/seamlessrdphook.c, the process that hooks the 32-bit applications.
-- Client is the client's plug-in, ClientDLL/clipper.cpp and windowdata.cpp. Client.Parse reads a message,
--   Client.Clip handles it; the objects that the table points to are a list, in which a deleted object
--   is `none`. The tokenizer (ClientDLL/tokenizer.cpp) and the hash table (ClientDLL/hash.cpp) are copies
--   of other authors' code: they are the parameters `Tokenizer` and `HashTable`, with the hypotheses
--   `Splits` and `Maps`, which Client.Samples shows of concrete ones.
--
-- Bytes are numbers below 256 and C strings are the lists of their bytes before the NUL. `uint32_t`
-- sums wrap modulo 2 ^ 32. A write out of an array, a use of NULL, a failed assertion and a missing NUL
-- are results of their own. `sscanf`, `strtoul` and `_vsnprintf` behave as the C standard and
-- Microsoft's runtime describe them; `long` has 32 bits and pointers have 64. Sums of `int`
-- coordinates wrap, as the compilers for Windows make them.
--
-- Fuel: `get_string` has the size of the array that it writes, and running out is the overrun of that
-- array. `process` takes the number of rounds, more than there are messages; `drain` takes 2 ^ 31
-- rounds, more than the semaphore's maximum; `do_sync` takes the depth of the windows. That this is
-- enough is part of the results.
--
-- Not modelled: `VirtualChannelInitEventProc` of ClientDLL/clipper.cpp, which only calls Windows; the
-- debug output, which the constants of clipper.h switch off; what releases memory alone; and
-- ClientDLL/hash.cpp, tokenizer.cpp and stdstring.h, which are copies of other authors' libraries.
pub mod Base
pub mod Shared
pub mod Vchannel
pub mod Shell
pub mod Hook
pub mod Helper
pub mod Client
