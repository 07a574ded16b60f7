-- ===== src/Client/Sound/Pointers.antt =====
-- What the changes of objects and of the table do to the pointers.
use seamlessrdp.Base.{
  ℕ_discrete, ℕ, zero, suc, ◌<◌, ◌≡◌, ◌≢◌, ◌⊎◌, inl, inr, refl, sym, ap, ◌∙◌, [], ◌∷◌, ◌++◌, Option,
  none, some, Bytes, arith, length, length-append, set, get_or-set_self, get_or-set_ne,
}
use seamlessrdp.Base.Int.{ℤ}
use seamlessrdp.Client.{WindowData, HashTable, Maps}
use seamlessrdp.Client.Clip.{Objects, object}
use seamlessrdp.Client.Sound.{IsLive, IsSound}

object-below : (os : Objects) (p : ℕ) (w : WindowData) → object os p ≡ some w → p < length os
object-below [] p w h = cc
object-below (o ∷ os) zero w h = omega arith
object-below (o ∷ os) (suc p) w h = omega (arith, object-below os p w h)

object-append :
    (os more : Objects) (p : ℕ) (w : WindowData)
    → object os p ≡ some w
    → object (os ++ more) p ≡ some w
object-append [] more p w h = cc
object-append (o ∷ os) more zero w h = h
object-append (o ∷ os) more (suc p) w h = object-append os more p w h

IsLive-append : (os more : Objects) (k : Bytes) (p : ℕ) → IsLive os k p → IsLive (os ++ more) k p
IsLive-append os more k p l = record {
  window = l.window;
  handle = l.handle;
  here = object-append os more p l.window l.here;
  named = l.named;
  taskbar = l.taskbar;
}

-- a change of another object
pub IsLive-set_other :
    (os : Objects) (k : Bytes) (p q : ℕ) (o : Option WindowData)
    → q ≢ p
    → IsLive os k p
    → IsLive (set os q o) k p
IsLive-set_other os k p q o ne l = record {
  window = l.window;
  handle = l.handle;
  here = get_or-set_ne os q p o none ne ∙ l.here;
  named = l.named;
  taskbar = l.taskbar;
}

pub IsLive-set_same :
    (os : Objects) (k : Bytes) (p h : ℕ) (w : WindowData)
    → p < length os
    → w.id ≡ k
    → w.taskbar ≡ some h
    → IsLive (set os p (some w)) k p
IsLive-set_same os k p h w below named taskbar = record {
  window = w;
  handle = h;
  here = get_or-set_self os p (some w) none below;
  named = named;
  taskbar = taskbar;
}

-- an old pointer is not the new one
fresh : (os : Objects) (k : Bytes) (p : ℕ) → IsLive os k p → length os ≢ p
fresh os k p l e = omega (arith, object-below os p l.window l.here)

Bytes-discrete : (s t : Bytes) → (s ≡ t) ⊎ (s ≢ t)
Bytes-discrete [] [] = inl refl
Bytes-discrete [] (d ∷ t) = inr (λ e. cc)
Bytes-discrete (c ∷ s) [] = inr (λ e. cc)
Bytes-discrete (c ∷ s) (d ∷ t) = elim (ℕ_discrete c d) [
  | no ne ↦ inr (λ e. ne (cc e))
  | yes same ↦ elim (Bytes-discrete s t) [
    | inl e ↦ inl (cc (same, e))
    | inr ne ↦ inr (λ e. ne (cc e))
  ]
]

module _ (T : HashTable) (law : Maps T) (t : T.State) (os : Objects) (sound : IsSound T t os) where
  pub IsSound-append : (more : Objects) → IsSound T t (os ++ more)
  IsSound-append more k p h = IsLive-append os more k p (sound k p h)

  -- the new object is changed or deleted
  pub IsSound-fresh : (o o' : Option WindowData) → IsSound T t (set (os ++ o ∷ []) (length os) o')
  IsSound-fresh o o' k p h =
      let l = sound k p h in
      IsLive-set_other (os ++ o ∷ []) k p (length os) o' (fresh os k p l)
        (IsLive-append os (o ∷ []) k p l)

  pub IsSound-insert :
      (o : Option WindowData) (w : WindowData) (h : ℕ)
      → w.taskbar ≡ some h
      → IsSound T (T.insert w.id (length os) t) (set (os ++ o ∷ []) (length os) (some w))
  IsSound-insert o w h taskbar k p found = elim (Bytes-discrete k w.id) [
    | inl same ↦
        let here : p ≡ length os = cc (law.insert_same w.id (length os) t, found, same) in
        rw here (
          IsLive-set_same (os ++ o ∷ []) k (length os) h w
            (omega (arith, length-append os (o ∷ []))) (sym same) taskbar)
    | inr ne ↦ IsSound-fresh o (some w) k p (sym (law.insert_other w.id k (length os) t ne) ∙ found)
  ]

  pub IsSound-del :
      (j : Bytes) (q : ℕ) → T.lookup j t ≡ some q → IsSound T (T.del j t).1 (set os q none)
  IsSound-del j q there k p found = elim (Bytes-discrete k j) [
    | inl same ↦ absurd (cc (law.del_same j t, found, same))
    | inr ne ↦
        let old = sym (law.del_other j k t ne) ∙ found in
        let l = sound k p old in
        let l' = sound j q there in
        IsLive-set_other os k p q none (λ e. ne (cc (e, l.here, l'.here, l.named, l'.named))) l
  ]

  pub IsSound-place :
      (j : Bytes) (q : ℕ) (w : WindowData) (x1 y1 x2 y2 : ℤ)
      → T.lookup j t ≡ some q
      → object os q ≡ some w
      → IsSound T t (set os q (some (record w { x1 = x1; y1 = y1; x2 = x2; y2 = y2 })))
  IsSound-place j q w x1 y1 x2 y2 there here k p found = elim (ℕ_discrete q p) [
    | no ne ↦ IsLive-set_other os k p q _ ne (sound k p found)
    | yes same ↦
        let l = sound k p found in
        let mine : l.window ≡ w = cc (same, here, l.here) in
        rw (← same) (
          IsLive-set_same os k q l.handle (record w { x1 = x1; y1 = y1; x2 = x2; y2 = y2 })
            (object-below os q w here) (sym (ap (λ (v : WindowData). v.id) mine) ∙ l.named)
            (sym (ap (λ (v : WindowData). v.taskbar) mine) ∙ l.taskbar))
  ]
