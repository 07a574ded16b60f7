-- ===== src/Client/Sound/Events.antt =====
-- What the handlers of ClientDLL/clipper.cpp do keeps the pointers in the table.
use mathlib.Core.List.{Memᴰ}
use seamlessrdp.Base.{
  ℕ, ◌≡◌, refl, ◌||◌, inl, inr, List, [], ◌∷◌, ◌++◌, Option, none, some, Option-cases, Bytes, codes,
  length, set, Bool-cases, if◌then◌else◌,
}
use seamlessrdp.Shell.Command.{equal, ◌>>=◌}
use seamlessrdp.Client.{WindowData, HashTable, Maps}
use seamlessrdp.Client.Parse.{Message}
use seamlessrdp.Client.Clip.{
  Surroundings, Area, Act, create_window, Objects, object, area_of, create_region, Clipper,
  create_and_show_window, main_of, do_clipping, and_clip, added, created, destroyed, moved,
  destroy_taskbar_window,
}
use seamlessrdp.Client.Sound.{IsLive, IsSound}
use seamlessrdp.Client.Sound.Pointers.{
  IsSound-append, IsSound-fresh, IsSound-insert, IsSound-del, IsSound-place,
}

get_or-append : (os : Objects) (w : WindowData) → object (os ++ some w ∷ []) (length os) ≡ some w
get_or-append [] w = refl
get_or-append (o ∷ os) w = get_or-append os w

-- the enumeration meets no deleted object
create_region-some :
    (os : Objects) (es : List (Bytes × ℕ))
    → ((k : Bytes) (p : ℕ) → Memᴰ (k, p) es → IsLive os k p)
    → (areas : List Area) × (create_region os es ≡ some areas)
unfolding create_region
create_region-some os [] h = ([], refl)
create_region-some os ((k, p) ∷ es) h =
    let l = h k p (Memᴰ.head refl) in
    let (rest, same) = create_region-some os es (λ j q m. h j q (Memᴰ.tail m)) in
    (area_of l.window ∷ rest, rw (create_region, l.here, same) refl)

-- a result with sound pointers
pub data Kept (T : HashTable) : Option (Clipper T × List Act) → Type 0 where
  kept : (c : Clipper T) (acts : List Act) → IsSound T c.table c.objects → Kept T (some (c, acts))

module _ (T : HashTable) (law : Maps T) where
  do_clipping-Kept :
      (e : Surroundings) (c : Clipper T) → IsSound T c.table c.objects → Kept T (do_clipping T e c)
  unfolding do_clipping
  do_clipping-Kept e c sound = elim (Option-cases (main_of T e c)) [
    | inl none_found ↦ rw (do_clipping, none_found) (kept _ _ sound)
    | inr (h, found) ↦
        let (areas, same) =
          create_region-some c.objects (T.entries c.table)
            (λ k p m. sound k p (law.visited k p c.table m)) in
        rw (do_clipping, found, same) (kept _ _ sound)
  ]

  -- behind some acts
  with_acts :
      (acts : List Act) (r : Option (Clipper T × List Act))
      → Kept T r
      → Kept T (r >>= (λ clipped. some (clipped.0, acts ++ clipped.1)))
  with_acts acts _ (kept c more sound) = kept c (acts ++ more) sound

  and_clip-Kept :
      (e : Surroundings) (c : Clipper T) (acts : List Act)
      → IsSound T c.table c.objects
      → Kept T (and_clip T e c acts)
  and_clip-Kept e c acts sound = with_acts acts (do_clipping T e c) (do_clipping-Kept e c sound)

  module _ (e : Surroundings) (c : Clipper T) (sound : IsSound T c.table c.objects) where
    pub created-Kept :
        (w : WindowData) → Kept T (created T e (length c.objects) w (added T (some w) c))
    unfolding created create_and_show_window
    created-Kept w =
        let shown = record w { taskbar = some e.taskbar } in
        rw (created, create_and_show_window, get_or-append c.objects w)
          (and_clip-Kept e _ (create_window w.title ∷ [])
            (IsSound-insert T law c.table c.objects sound (some w) shown e.taskbar refl))

    -- the key is in the table, and its window goes
    pub destroyed-Kept :
        (w m : WindowData) (p : ℕ)
        → T.lookup m.id c.table ≡ some p
        → Kept T (destroyed T e m (added T (some w) c))
    unfolding destroyed destroy_taskbar_window
    destroyed-Kept w m p there =
        let sound' = IsSound-append T law c.table c.objects sound (some w ∷ []) in
        let l = sound' m.id p there in
        rw (destroyed, law.del_found m.id c.table, there, l.here, destroy_taskbar_window, l.taskbar)
          (and_clip-Kept e _ _
            (IsSound-del T law c.table (c.objects ++ some w ∷ []) sound' m.id p there))

    pub moved-Kept :
        (w m : WindowData)
        → Kept T (
            moved T e m
              (record c { objects = set (c.objects ++ some w ∷ []) (length c.objects) none }))
    unfolding moved
    moved-Kept w m =
        let os = set (c.objects ++ some w ∷ []) (length c.objects) none in
        let sound' = IsSound-fresh T law c.table c.objects sound (some w) none in
        elim (Option-cases (T.lookup m.id c.table)) [
          | inl absent ↦ rw (moved, absent) (kept _ _ sound')
          | inr (p, there) ↦
              let l = sound' m.id p there in
              rw (moved, there, l.here)
                (and_clip-Kept e _ [] (
                  IsSound-place T law c.table os sound' m.id p l.window m.x1 m.y1 m.x2 m.y2 there
                    l.here))
        ]

    pub rest_of-Kept :
        (m : Message)
        → Kept T (
            if equal m.message_type (codes "HCBT_MINMAX")
            then some (added T (some m.wid) c, [])
            else if equal m.message_type (codes "HCBT_MOVESIZE")
                || equal m.message_type (codes "CALLWNDPROC_WM_MOVING")
            then moved T e m.wid
                (record c { objects = set (c.objects ++ some m.wid ∷ []) (length c.objects) none })
            else some (added T (some m.wid) c, []))
    rest_of-Kept m =
        let grown =
          kept (added T (some m.wid) c) []
            (IsSound-append T law c.table c.objects sound (some m.wid ∷ [])) in
        let asks =
          equal m.message_type (codes "HCBT_MOVESIZE")
          || equal m.message_type (codes "CALLWNDPROC_WM_MOVING") in
        elim (Bool-cases (equal m.message_type (codes "HCBT_MINMAX"))) [
          | inl sizes ↦ rw sizes grown
          | inr not_sizes ↦ elim (Bool-cases asks) [
            | inl moves ↦ rw (not_sizes, moves) (moved-Kept m.wid m.wid)
            | inr stays ↦ rw (not_sizes, stays) grown
          ]
        ]
