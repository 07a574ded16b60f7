-- ===== src/Client/Sound/Outcome.antt =====
-- No event of the channel breaks the pointers in the table, but for one.
use seamlessrdp.Base.{
  ℕ, ◌≡◌, refl, Bool, true, false, inl, inr, List, [], Option, none, some, Option-cases, Bytes,
  codes, length, ◌==◌, Bool-cases, if◌then◌else◌,
}
use seamlessrdp.Shell.Command.{equal}
use seamlessrdp.Shell.Command.Equal.{equal-true}
use seamlessrdp.Client.{Tokenizer, HashTable, Maps}
use seamlessrdp.Client.Parse.{Message, read_message, copy_data}
use seamlessrdp.Client.Clip.{
  Surroundings, Act, ChannelEvent, data_received, other, Clipper, added, destroyed, on_message,
  on_event, virtual_channel_open_event,
}
use seamlessrdp.Client.Sound.{IsSound, IsUnknown}
use seamlessrdp.Client.Sound.Events.{Kept, kept, created-Kept, destroyed-Kept, rest_of-Kept}

not_both :
    (s : Bytes)
    → equal s (codes "HSHELL_WINDOWCREATED") ≡ true
    → ¬ (equal s (codes "HSHELL_WINDOWDESTROYED") ≡ true)
unfolding equal
not_both s new ends = cc (rw (equal-true s (codes "HSHELL_WINDOWCREATED") new) at ends)

-- a whole message
pub concerns : ChannelEvent → Bool → Bool
concerns data_received fits = fits
concerns other fits = false

-- The event is without undefined behaviour and leaves sound pointers; or it destroys a window that
-- is not in the table.
pub data Outcome (T : HashTable) (c : Clipper T) (concerned : Bool) (m : Message)
    : Option (Clipper T × List Act) → Type 0 where
  stays_sound :
      (c' : Clipper T) (acts : List Act)
      → IsSound T c'.table c'.objects
      → (concerned ≡ true → ¬ IsUnknown T c.table m)
      → Outcome T c concerned m (some (c', acts))
  lost : concerned ≡ true → IsUnknown T c.table m → Outcome T c concerned m none

module _ (T : HashTable) (law : Maps T) (e : Surroundings) (c : Clipper T)
    (sound : IsSound T c.table c.objects) where
  Kept-Outcome :
      (concerned : Bool) (m : Message) (r : Option (Clipper T × List Act))
      → (concerned ≡ true → ¬ IsUnknown T c.table m)
      → Kept T r
      → Outcome T c concerned m r
  Kept-Outcome concerned m _ known (kept c' acts s) = stays_sound c' acts s known

  destroyed-Outcome :
      (m : Message)
      → equal m.message_type (codes "HSHELL_WINDOWDESTROYED") ≡ true
      → Outcome T c true m (destroyed T e m.wid (added T (some m.wid) c))
  unfolding destroyed
  destroyed-Outcome m ends = elim (Option-cases (T.lookup m.wid.id c.table)) [
    | inl absent ↦ rw (destroyed, law.del_found m.wid.id c.table, absent) (lost refl (ends, absent))
    | inr (p, there) ↦
        Kept-Outcome true m _ (λ same u. cc (u.1, there))
          (destroyed-Kept T law e c sound m.wid m.wid p there)
  ]

  on_message-Outcome :
      (m : Message)
      → Outcome T c true m (on_message T e (length c.objects) m (added T (some m.wid) c))
  unfolding on_message
  on_message-Outcome m = elim (Bool-cases (equal m.message_type (codes "HSHELL_WINDOWCREATED"))) [
    | inl new ↦
        rw (on_message, new)
          (Kept-Outcome true m _ (λ same u. not_both m.message_type new u.0)
            (created-Kept T law e c sound m.wid))
    | inr old ↦ elim (Bool-cases (equal m.message_type (codes "HSHELL_WINDOWDESTROYED"))) [
      | inl ends ↦ rw (on_message, old, ends) (destroyed-Outcome m ends)
      | inr other_type ↦
          rw (on_message, old, other_type)
            (Kept-Outcome true m _ (λ same u. cc (u.0, other_type))
              (rest_of-Kept T law e c sound m))
    ]
  ]

  on_event-Outcome :
      (event : ChannelEvent) (fits : Bool) (m : Message)
      → Outcome T c (concerns event fits) m (
          if fits
          then on_event T e event (length c.objects) m (added T (some m.wid) c) c
          else some (c, []))
  unfolding on_event concerns
  on_event-Outcome data_received false m = stays_sound c [] sound (λ same u. cc)
  on_event-Outcome other false m = stays_sound c [] sound (λ same u. cc)
  on_event-Outcome data_received true m = on_message-Outcome m
  on_event-Outcome other true m = stays_sound c [] sound (λ same u. cc)

  -- Let every pointer in the table point to an object that is not deleted, the window of its key, which
  -- has a taskbar window. An event whose bytes fit the array, with the event's total length or not,
  -- whatever its text says, has no undefined behaviour and leaves such a table, unless it is a whole
  -- message that destroys a window not in the table; and then NULL is used.
  pub virtual_channel_open_event-Outcome :
      (tokens : Tokenizer) (event : ChannelEvent) (bytes text : Bytes) (total : ℕ)
      → copy_data bytes ≡ some text
      → Outcome T c
          (concerns event (length bytes == total))
          (read_message tokens text)
          (virtual_channel_open_event T tokens e event bytes total c)
  unfolding virtual_channel_open_event
  virtual_channel_open_event-Outcome tokens event bytes text total copied =
      rw (virtual_channel_open_event, copied)
        (on_event-Outcome event (length bytes == total) (read_message tokens text))
