-- ===== src/Client/Clip.antt =====
-- `VirtualChannelOpenEvent` of ClientDLL/clipper.cpp, with `DoClipping`, `CreateRegionFromWindowData`,
-- `CreateAndShowWindow`, `DestroyTaskbarWindow` and the search for the main window. Pointers are numbers,
-- and what they point to is a list of objects; `none` is an object that was deleted.
use seamlessrdp.Base.{
  ℕ, Bool, not, ◌&&◌, ◌||◌, List, [], ◌∷◌, ◌++◌, Option, none, some, Bytes, codes, ◌==◌,
  if◌then◌else◌, length, get_or, set,
}
use seamlessrdp.Base.Int.{ℤ, pos}
use seamlessrdp.Shell.Command.{equal, ◌>>=◌}
use seamlessrdp.Client.{WindowData, Tokenizer, HashTable}
use seamlessrdp.Client.Parse.{Message, read_message, copy_data}

-- a window that EnumWindows reports; `sysmenu` is WS_SYSMENU
pub record TopWindow : Type 0 where
  pub hwnd : ℕ
  pub thread_id : ℕ
  pub proc_id : ℕ
  pub sysmenu : Bool

-- `PrivateEnumWindowsProc`: whether it ends the enumeration. The union holds one id for both.
unfoldable pub is_main_window : ℕ → TopWindow → Bool
is_main_window id w = (w.thread_id == id || w.proc_id == id) && w.sysmenu

unfoldable pub find_process_main_window : ℕ → List TopWindow → Option ℕ
unfolding is_main_window
find_process_main_window id [] = none
find_process_main_window id (w ∷ ws) =
    if is_main_window id w then some w.hwnd else find_process_main_window id ws

-- What Windows answers during one event: `right` and `bottom` are those of the main window, and
-- `taskbar` is the result of CreateWindow.
pub record Surroundings : Type 0 where
  pub process_id : ℕ
  pub windows : List TopWindow
  pub right : ℤ
  pub bottom : ℤ
  pub taskbar : ℕ

-- the arguments of CreateRectRgn
pub record Area : Type 0 where
  pub left : ℤ
  pub top : ℤ
  pub right : ℤ
  pub bottom : ℤ

-- What the plug-in asks of Windows. A region is the union of its areas.
pub data Act : Type 0 where
  create_window : Bytes → Act
  destroy_window : ℕ → Act
  set_region : ℕ → List Area → Act
  redraw : ℕ → Act

abbrev pub Objects : Type 0
Objects = List (Option WindowData)

abbrev pub object : Objects → ℕ → Option WindowData
object os p = get_or os p none

abbrev pub area_of : WindowData → Area
area_of w = record { left = w.x1; top = w.y1; right = w.x2; bottom = w.y2 }

-- CHANNEL_EVENT_DATA_RECEIVED and the other events
pub data ChannelEvent : Type 0 where
  data_received : ChannelEvent
  other : ChannelEvent

-- The loop of `CreateRegionFromWindowData` over the table; `none` is a use of a deleted object.
unfoldable pub create_region : Objects → List (Bytes × ℕ) → Option (List Area)
create_region os [] = some []
create_region os ((key, p) ∷ es) = do
  w ← object os p
  rest ← create_region os es
  some (area_of w ∷ rest)

module _ (T : HashTable) where
  -- the globals, and the objects
  pub record Clipper : Type 0 where
    pub table : T.State
    pub objects : Objects
    pub main_window : Option ℕ

  -- `CreateAndShowWindow`. Its second test assigns 1, so a window is created in any case.
  unfoldable pub create_and_show_window : Surroundings → ℕ → Clipper → Option (Clipper × List Act)
  create_and_show_window e p c = do
    w ← object c.objects p
    some (
      record c { objects = set c.objects p (some (record w { taskbar = some e.taskbar })) },
      create_window w.title ∷ [],
    )

  unfoldable pub main_of : Surroundings → Clipper → Option ℕ
  unfolding find_process_main_window
  main_of e c = elim c.main_window [
    | some h ↦ some h
    | none ↦ find_process_main_window e.process_id e.windows
  ]

  -- `m_regionResult == NULL`, where no window has made a region
  unfoldable pub or_whole : Surroundings → List Area → List Area
  or_whole e [] = record { left = pos 0; top = pos 0; right = e.right; bottom = e.bottom } ∷ []
  or_whole e (a ∷ areas) = a ∷ areas

  -- behind the enumeration of the table: the region, or the whole window if there is none
  unfoldable pub region_acts : Surroundings → ℕ → List Area → List Act
  unfolding or_whole
  region_acts e h areas = set_region h (or_whole e areas) ∷ redraw h ∷ []

  -- The calls of Windows for the main window alone are left out.
  unfoldable pub do_clipping : Surroundings → Clipper → Option (Clipper × List Act)
  unfolding create_region main_of region_acts
  do_clipping e c = elim (main_of e c) [
    | none ↦ some (record c { main_window = none }, [])
    | some h ↦ do
      areas ← create_region c.objects (T.entries c.table)
      some (record c { main_window = some h }, region_acts e h areas)
  ]

  -- acts in front of those of `do_clipping`
  abbrev pub and_clip : Surroundings → Clipper → List Act → Option (Clipper × List Act)
  and_clip e c acts = do clipped ← do_clipping e c; some (clipped.0, acts ++ clipped.1)

  -- HSHELL_WINDOWCREATED; `p` points to the new object
  unfoldable pub created : Surroundings → ℕ → WindowData → Clipper → Option (Clipper × List Act)
  unfolding do_clipping create_and_show_window
  created e p w c = do
    shown ← create_and_show_window e p (record c { table = T.insert w.id p c.table })
    and_clip e shown.0 shown.1

  -- `DestroyTaskbarWindow` for an object
  unfoldable pub destroy_taskbar_window : WindowData → Option (List Act)
  destroy_taskbar_window w = do
    h ← w.taskbar
    some (if not (h == 0) then destroy_window h ∷ [] else [])

  -- HSHELL_WINDOWDESTROYED. For a key that is not in the table NULL is used.
  unfoldable pub destroyed : Surroundings → WindowData → Clipper → Option (Clipper × List Act)
  unfolding do_clipping destroy_taskbar_window
  destroyed e w c = do
    p ← (T.del w.id c.table).0
    old ← object c.objects p
    acts ← destroy_taskbar_window old
    and_clip e (record c { table = (T.del w.id c.table).1; objects = set c.objects p none }) acts

  -- HCBT_MOVESIZE and CALLWNDPROC_WM_MOVING, up to the `delete`
  unfoldable pub moved : Surroundings → WindowData → Clipper → Option (Clipper × List Act)
  unfolding do_clipping
  moved e w c = elim (T.lookup w.id c.table) [
    | none ↦ some (c, [])
    | some p ↦ do
      old ← object c.objects p
      let placed = record old { x1 = w.x1; x2 = w.x2; y1 = w.y1; y2 = w.y2 }
      and_clip e (record c { objects = set c.objects p (some placed) }) []
  ]

  -- The chain over the type of the message; `c` has the new object at `p`.
  unfoldable pub on_message : Surroundings → ℕ → Message → Clipper → Option (Clipper × List Act)
  unfolding created destroyed moved
  on_message e p m c =
      let deleted = record c { objects = set c.objects p none } in
      if equal m.message_type (codes "HSHELL_WINDOWCREATED")
      then created e p m.wid c
      else if equal m.message_type (codes "HSHELL_WINDOWDESTROYED")
      then destroyed e m.wid c
      else if equal m.message_type (codes "HCBT_MINMAX")
      then some (c, [])
      else if equal m.message_type (codes "HCBT_MOVESIZE")
          || equal m.message_type (codes "CALLWNDPROC_WM_MOVING")
      then moved e m.wid deleted
      else some (c, [])

  -- the `switch`
  unfoldable pub on_event :
      Surroundings → ChannelEvent → ℕ → Message → Clipper → Clipper → Option (Clipper × List Act)
  unfolding on_message
  on_event e data_received p m grown c = on_message e p m grown
  on_event e other p m grown c = some (c, [])

  -- with a new object, to which the number of the others points
  abbrev pub added : Option WindowData → Clipper → Clipper
  added o c = record c { objects = c.objects ++ o ∷ [] }

  -- `none` is undefined behaviour: a write or a read behind `ourData`, or a use of NULL, of a deleted
  -- object or of an uninitialized handle.
  unfoldable pub virtual_channel_open_event :
      Tokenizer → Surroundings → ChannelEvent → Bytes → ℕ → Clipper → Option (Clipper × List Act)
  unfolding on_event
  virtual_channel_open_event tokens e event bytes total c = do
    text ← copy_data bytes
    let m = read_message tokens text
    if length bytes == total
        then on_event e event (length c.objects) m (added (some m.wid) c) c
        else some (c, [])
