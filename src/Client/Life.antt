-- ===== src/Client/Life.antt =====
-- The plug-in of ClientDLL/clipper.cpp from `VirtualChannelEntry` on, event by event.
use seamlessrdp.Base.{
  ℕ, ◌≡◌, Bool, true, false, not, inl, inr, List, [], Option, none, some, Option-cases, Bytes,
  length, ◌==◌, if◌then◌else◌,
}
use seamlessrdp.Client.{Tokenizer, HashTable, Maps}
use seamlessrdp.Client.Parse.{Message, read_message, copy_data}
use seamlessrdp.Client.Clip.{Surroundings, Act, ChannelEvent, Clipper, virtual_channel_open_event}
use seamlessrdp.Client.Sound.{IsSound}
use seamlessrdp.Client.Sound.Outcome.{
  Outcome, stays_sound, lost, concerns, virtual_channel_open_event-Outcome,
}

-- `initialized` is the result CHANNEL_RC_OK, and `options` whether they are CHANNEL_OPTION_INITIALIZED.
-- ALWAYS__CLIP is 0, so that nothing is clipped.
unfoldable pub virtual_channel_entry : (T : HashTable) → Bool → Bool → Bool × Clipper T
virtual_channel_entry T initialized options =
    let start : Clipper T = record { table = T.construct; objects = []; main_window = none } in
    if not initialized
    then (false, start)
    else if not options
    then (false, start)
    else (true, start)

-- the states that events can lead to without undefined behaviour
pub data Reached (T : HashTable) (tokens : Tokenizer) : Clipper T → Type 0 where
  entered :
      (initialized options : Bool)
      → Reached T tokens (virtual_channel_entry T initialized options).1
  handled :
      (e : Surroundings) (event : ChannelEvent) (bytes : Bytes) (total : ℕ) (c c' : Clipper T)
      (acts : List Act)
      → Reached T tokens c
      → virtual_channel_open_event T tokens e event bytes total c ≡ some (c', acts)
      → Reached T tokens c'

module _ (T : HashTable) (law : Maps T) (tokens : Tokenizer) where
  entered-IsSound :
      (initialized options : Bool)
      → IsSound T
          (virtual_channel_entry T initialized options).1.table
          (virtual_channel_entry T initialized options).1.objects
  unfolding virtual_channel_entry
  entered-IsSound false options k p found = absurd (cc (law.constructed k, found))
  entered-IsSound true false k p found = absurd (cc (law.constructed k, found))
  entered-IsSound true true k p found = absurd (cc (law.constructed k, found))

  Outcome-IsSound :
      (c c' : Clipper T) (concerned : Bool) (m : Message) (acts : List Act)
      (r : Option (Clipper T × List Act))
      → Outcome T c concerned m r
      → r ≡ some (c', acts)
      → IsSound T c'.table c'.objects
  Outcome-IsSound c c' concerned m acts _ (stays_sound d _ sound known) e =
      let same : d ≡ c' = cc e in rw (← same) sound
  Outcome-IsSound c c' concerned m acts _ (lost is u) e = cc e

  Reached-IsSound : (c : Clipper T) → Reached T tokens c → IsSound T c.table c.objects
  unfolding virtual_channel_open_event
  Reached-IsSound _ (entered initialized options) = entered-IsSound initialized options
  Reached-IsSound _ (handled e event bytes total c c' acts before result) =
      elim (Option-cases (copy_data bytes)) [
        | inl over ↦ absurd (cc (rw (virtual_channel_open_event, over) at result))
        | inr (text, copied) ↦
            Outcome-IsSound c c' _ (read_message tokens text) acts _
              (virtual_channel_open_event-Outcome T law e c (Reached-IsSound c before) tokens event
                bytes text total copied)
              result
      ]

  -- Whatever events have been handled since the plug-in was entered, every pointer in the table points
  -- to an object that is not deleted, the window of its key, which has a taskbar window. So the next
  -- event whose bytes fit the array, whatever its text says, has no undefined behaviour and leaves such a
  -- table again, unless it is a whole message that destroys a window not in the table, and then NULL is
  -- used.
  pub Reached-Outcome :
      (c : Clipper T) (e : Surroundings) (event : ChannelEvent) (bytes text : Bytes) (total : ℕ)
      → Reached T tokens c
      → copy_data bytes ≡ some text
      → IsSound T c.table c.objects
        × Outcome T c
            (concerns event (length bytes == total))
            (read_message tokens text)
            (virtual_channel_open_event T tokens e event bytes total c)
  Reached-Outcome c e event bytes text total before copied =
      let sound = Reached-IsSound c before in
      (
        sound,
        virtual_channel_open_event-Outcome T law e c sound tokens event bytes text total copied,
      )
