-- ===== src/Vchannel/Open.antt =====
-- `vchannel_open`, `vchannel_close`, `vchannel_reopen`, `vchannel_is_open`, `vchannel_block` and
-- `vchannel_unblock` of ServerExe/vchannel.c: the objects that the shell creates.
pub mod Opened
use seamlessrdp.Base.{ℕ, ◌+◌, ◌-◌, Bool, true, false, not, ◌&&◌, ◌||◌, if◌then◌else◌}
use seamlessrdp.Vchannel.Buffer.{Buffer, buffer_size}

-- which of the globals are not NULL
pub record Handles : Type 0 where
  pub channel : Bool
  pub mutex : Bool
  pub serial : Bool
  pub map_file : Bool
  pub buffer : Bool
  pub evrd : Bool
  pub evwr : Bool

-- Whether the objects can be created. Each global stays as it was if the function leaves before it.
pub record Creates : Type 0 where
  pub channel : Bool
  pub mutex : Bool
  pub serial : Bool
  pub map_file : Bool
  pub view : Bool
  pub evrd : Bool
  pub evwr : Bool

unfoldable pub vchannel_close : Handles → Handles
vchannel_close h = record h { mutex = false; channel = false; map_file = false; buffer = false }

abbrev pub vchannel_is_open : Handles → Bool
vchannel_is_open h = h.channel

-- `g_buffer->size = BUFFER_SIZE` and `g_buffer->pw = g_buffer->pr = 0`
abbrev pub format : Buffer → Buffer
format b = record b { size = buffer_size; pw = 0; pr = 0 }

-- 0 or -1, the globals, and the shared memory
pub record Opening : Type 0 where
  pub ok : Bool
  pub handles : Handles
  pub memory : Buffer

abbrev pub bail_out : Handles → Buffer → Opening
bail_out h b = record { ok = false; handles = vchannel_close h; memory = b }

-- the creations in their order, from the events backwards
unfoldable pub create_events : Creates → Handles → Buffer → Opening
create_events o h b =
    let h' = record h { evrd = o.evrd; evwr = o.evwr } in
    if not o.evrd || not o.evwr
    then bail_out h' b
    else record { ok = true; handles = h'; memory = format b }

unfoldable pub map_view : Creates → Handles → Buffer → Opening
map_view o h b =
    let h' = record h { buffer = o.view } in
    if not o.view then bail_out h' b else create_events o h' b

unfoldable pub create_map_file : Creates → Handles → Buffer → Opening
create_map_file o h b =
    let h' = record h { map_file = o.map_file } in
    if not o.map_file then bail_out h' b else map_view o h' b

unfoldable pub create_serial : Creates → Handles → Buffer → Opening
create_serial o h b =
    let h' = record h { serial = o.serial } in
    if not o.serial then bail_out h' b else create_map_file o h' b

unfoldable pub create_mutex : Creates → Handles → Buffer → Opening
create_mutex o h b =
    let h' = record h { mutex = o.mutex } in
    if not o.mutex then bail_out h' b else create_serial o h' b

unfoldable pub vchannel_open : Creates → Handles → Buffer → Opening
unfolding create_mutex create_serial create_map_file map_view create_events vchannel_close
vchannel_open o h b =
    let h' = record h { channel = o.channel } in
    if h.channel
    then record { ok = true; handles = h; memory = b }
    else if not o.channel
    then bail_out h' b
    else create_mutex o h' b

-- `vchannel_block` and `vchannel_unblock`, as the number of times that the process holds the mutex
abbrev pub vchannel_block : ℕ → ℕ
vchannel_block held = held + 1

abbrev pub vchannel_unblock : ℕ → ℕ
vchannel_unblock held = held - 1

-- the flag is the result 0; `opens` is that of `WTSVirtualChannelOpen`
unfoldable pub vchannel_reopen : Bool → Handles → ℕ → Bool × Handles × ℕ
vchannel_reopen opens h held =
    (opens, record h { channel = opens }, vchannel_unblock (vchannel_block held))
