-- ===== src/Client/Shown.antt =====
-- The region of the main window in ClientDLL/clipper.cpp, against the windows in the table.
use mathlib.Core.List.{Memᴰ}
use seamlessrdp.Base.{
  ℕ, ◌≡◌, ◌≢◌, ◌↔◌, refl, ◌∙◌, ap, inl, inr, List, [], ◌∷◌, Option, none, some, Option-cases, Bytes,
}
use seamlessrdp.Base.Int.{pos}
use seamlessrdp.Client.{WindowData, HashTable, Maps}
use seamlessrdp.Client.Clip.{
  Surroundings, Area, Act, set_region, redraw, Objects, object, area_of, create_region, Clipper,
  main_of, or_whole, region_acts, do_clipping,
}
use seamlessrdp.Client.Sound.{IsLive, IsSound}

-- the area of a window among the entries
record IsEntry (os : Objects) (es : List (Bytes × ℕ)) (a : Area) : Type 0 where
  key : Bytes
  pointer : ℕ
  entry : Memᴰ (key, pointer) es
  window : WindowData
  here : object os pointer ≡ some window
  same : a ≡ area_of window

-- the area of a window in the table
pub record IsShown (T : HashTable) (t : T.State) (os : Objects) (a : Area) : Type 0 where
  pub key : Bytes
  pub pointer : ℕ
  pub found : T.lookup key t ≡ some pointer
  pub window : WindowData
  pub here : object os pointer ≡ some window
  pub same : a ≡ area_of window

-- The areas are those of the entries.
record Regions (os : Objects) (es : List (Bytes × ℕ)) : Type 0 where
  areas : List Area
  computed : create_region os es ≡ some areas
  shown : (a : Area) → Memᴰ a areas ↔ IsEntry os es a

IsEntry-later :
    (os : Objects) (x : Bytes × ℕ) (es : List (Bytes × ℕ)) (a : Area)
    → IsEntry os es a
    → IsEntry os (x ∷ es) a
IsEntry-later os x es a s = record {
  key = s.key;
  pointer = s.pointer;
  entry = Memᴰ.tail s.entry;
  window = s.window;
  here = s.here;
  same = s.same;
}

cons-IsEntry :
    (os : Objects) (k : Bytes) (p : ℕ) (es : List (Bytes × ℕ)) (a : Area) (l : IsLive os k p)
    (areas : List Area)
    → (Memᴰ a areas → IsEntry os es a)
    → Memᴰ a (area_of l.window ∷ areas)
    → IsEntry os ((k, p) ∷ es) a
cons-IsEntry os k p es a l areas ih (Memᴰ.head e) = record {
  key = k;
  pointer = p;
  entry = Memᴰ.head refl;
  window = l.window;
  here = l.here;
  same = e;
}
cons-IsEntry os k p es a l areas ih (Memᴰ.tail m) = IsEntry-later os (k, p) es a (ih m)

IsEntry-cons :
    (os : Objects) (k : Bytes) (p : ℕ) (es : List (Bytes × ℕ)) (a : Area) (l : IsLive os k p)
    (areas : List Area)
    → (IsEntry os es a → Memᴰ a areas)
    → IsEntry os ((k, p) ∷ es) a
    → Memᴰ a (area_of l.window ∷ areas)
IsEntry-cons os k p es a l areas ih s = elim (s.entry) [
  | Memᴰ.head e ↦
      let mine : s.window ≡ l.window = cc (e, s.here, l.here) in
      Memᴰ.head (s.same ∙ ap area_of mine)
  | Memᴰ.tail m ↦ Memᴰ.tail (
      ih (record {
        key = s.key;
        pointer = s.pointer;
        entry = m;
        window = s.window;
        here = s.here;
        same = s.same;
      }))
]

create_region-Regions :
    (os : Objects) (es : List (Bytes × ℕ))
    → ((k : Bytes) (p : ℕ) → Memᴰ (k, p) es → IsLive os k p)
    → Regions os es
unfolding create_region
create_region-Regions os [] live = record {
  areas = [];
  computed = refl;
  shown = λ a. (λ m. elim m [ ], λ s. elim (s.entry) [ ]);
}
create_region-Regions os ((k, p) ∷ es) live =
    let l = live k p (Memᴰ.head refl) in
    let rest = create_region-Regions os es (λ j q m. live j q (Memᴰ.tail m)) in
    record {
      areas = area_of l.window ∷ rest.areas;
      computed = rw (create_region, l.here, rest.computed) refl;
      shown = λ a. (
        cons-IsEntry os k p es a l rest.areas (rest.shown a).0,
        IsEntry-cons os k p es a l rest.areas (rest.shown a).1,
      );
    }

-- What `DoClipping` does: nothing, while there is no main window; else a region for it, which is the
-- whole window if the table is empty, and otherwise has exactly the areas of the windows in the table.
pub data Clips (T : HashTable) (e : Surroundings) (t : T.State) (os : Objects)
    : Option (Clipper T × List Act) → Type 0 where
  no_main : Clips T e t os (some (record { table = t; objects = os; main_window = none }, []))
  whole :
      (h : ℕ)
      → ((k : Bytes) → T.lookup k t ≡ none)
      → Clips T e t os (
          some (
            record { table = t; objects = os; main_window = some h },
            set_region h
                  (record { left = pos 0; top = pos 0; right = e.right; bottom = e.bottom } ∷ [])
                ∷ redraw h
                ∷ [],
          ))
  windows :
      (h : ℕ) (areas : List Area)
      → areas ≢ []
      → ((a : Area) → Memᴰ a areas ↔ IsShown T t os a)
      → Clips T e t os (
          some (
            record { table = t; objects = os; main_window = some h },
            set_region h areas ∷ redraw h ∷ [],
          ))

module _ (T : HashTable) (law : Maps T) (e : Surroundings) (t : T.State) (os : Objects)
    (sound : IsSound T t os) where
  IsEntry-IsShown : (a : Area) → IsEntry os (T.entries t) a → IsShown T t os a
  IsEntry-IsShown a s = record {
    key = s.key;
    pointer = s.pointer;
    found = law.visited s.key s.pointer t s.entry;
    window = s.window;
    here = s.here;
    same = s.same;
  }

  IsShown-IsEntry : (a : Area) → IsShown T t os a → IsEntry os (T.entries t) a
  IsShown-IsEntry a s = record {
    key = s.key;
    pointer = s.pointer;
    entry = law.visits s.key s.pointer t s.found;
    window = s.window;
    here = s.here;
    same = s.same;
  }

  -- a table whose windows have no areas
  no_windows : ((a : Area) → ¬ IsShown T t os a) → (k : Bytes) → T.lookup k t ≡ none
  no_windows none_shown k = elim (Option-cases (T.lookup k t)) [
    | inl absent ↦ absent
    | inr (p, found) ↦
        let l = sound k p found in
        absurd (
          none_shown (area_of l.window) (record {
            key = k;
            pointer = p;
            found = found;
            window = l.window;
            here = l.here;
            same = refl;
          }))
  ]

  region_acts-Clips :
      (h : ℕ) (areas : List Area)
      → ((a : Area) → Memᴰ a areas ↔ IsShown T t os a)
      → Clips T e t os
          (some (record { table = t; objects = os; main_window = some h }, region_acts T e h areas))
  unfolding region_acts or_whole
  region_acts-Clips h [] shown = whole h (no_windows (λ a s. elim ((shown a).1 s) [ ]))
  region_acts-Clips h (a ∷ areas) shown = windows h (a ∷ areas) (λ e. cc) shown

  -- Where every pointer in the table points to the window of its key, a clipping does nothing while
  -- there is no main window. Otherwise the region that it sets is the whole main window if the table is
  -- empty, and else has exactly the areas of the windows in the table, in whatever order the table is
  -- enumerated.
  pub do_clipping-Clips :
      (main : Option ℕ)
      → Clips T e t os (do_clipping T e (record { table = t; objects = os; main_window = main }))
  unfolding do_clipping
  do_clipping-Clips main =
      let c : Clipper T = record { table = t; objects = os; main_window = main } in
      elim (Option-cases (main_of T e c)) [
        | inl absent ↦ rw (do_clipping, absent) no_main
        | inr (h, found) ↦
            let r =
              create_region-Regions os (T.entries t) (λ k p m. sound k p (law.visited k p t m)) in
            rw (do_clipping, found, r.computed)
              (region_acts-Clips h r.areas (λ a. (
                λ m. IsEntry-IsShown a ((r.shown a).0 m),
                λ s. (r.shown a).1 (IsShown-IsEntry a s),
              )))
      ]
