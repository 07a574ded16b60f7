-- ===== src/Hook/Library/Count.antt =====
-- The instance count over the life of many processes.
use seamlessrdp.Base.{
  ℕ, suc, ◌+◌, ◌≡◌, refl, Bool, true, false, ◌&&◌, List, [], ◌∷◌, ◌++◌, All, if◌then◌else◌, arith,
}
use seamlessrdp.Base.Int.{ℤ, pos, ◌+ℤ◌, ◌-ℤ◌}
use seamlessrdp.Hook.Library.{Library, attach, detach}

-- What happens in a session: a process attaches, with the answers of Windows, or one of those that are
-- attached, given by its place, detaches.
pub data Step : (List Library × ℤ) → (List Library × ℤ) → Type 0 where
  attaches :
      (mutex mapping view : Bool) (ls : List Library) (n : ℤ)
      → Step (ls, n) ((attach mutex mapping view n).0 ∷ ls, (attach mutex mapping view n).1)
  detaches :
      (pid : ℕ) (before : List Library) (l : Library) (after : List Library) (n : ℤ)
      → Step (before ++ l ∷ after, n) (before ++ after, (detach pid l n).1)

pub data Reached : (List Library × ℤ) → Type 0 where
  start : Reached ([], pos 0)
  next : (s t : List Library × ℤ) → Reached s → Step s t → Reached t

-- how many of the processes have initialized the library
pub initialized_count : List Library → ℕ
initialized_count [] = 0
initialized_count (l ∷ ls) = let n = initialized_count ls in if l.initialized then suc n else n

-- A process holds the mutex and the data exactly if it has initialized the library.
abbrev IsSound : Library → Type 0
IsSound l = (l.mutex && l.shdata) ≡ l.initialized

count-removed :
    (before : List Library) (l : Library) (after : List Library)
    → initialized_count (before ++ l ∷ after)
      ≡ initialized_count (before ++ after) + (if l.initialized then 1 else 0)
unfolding initialized_count
count-removed [] l after = ground arith
count-removed (b ∷ before) l after = ground (arith, count-removed before l after)

IsSound-split :
    (before : List Library) (l : Library) (after : List Library)
    → All IsSound (before ++ l ∷ after)
    → IsSound l × All IsSound (before ++ after)
IsSound-split [] l after (h, hs) = (h, hs)
IsSound-split (b ∷ before) l after (h, hs) =
    let (here, rest) = IsSound-split before l after hs in (here, (h, rest))

one_more : (n : ℕ) → pos n +ℤ pos 1 ≡ pos (suc n)
unfolding ◌+ℤ◌
one_more n = ground arith

one_less : (n : ℕ) → pos (n + 1) -ℤ pos 1 ≡ pos n
unfolding ◌-ℤ◌
one_less n = ground arith

-- The number that the shared memory holds, and the soundness of the processes.
abbrev pub IsCounted : (List Library × ℤ) → Type 0
IsCounted s = (s.1 ≡ pos (initialized_count s.0)) × All IsSound s.0

attach-IsCounted :
    (mutex mapping view : Bool) (ls : List Library) (n : ℤ)
    → IsCounted (ls, n)
    → IsCounted ((attach mutex mapping view n).0 ∷ ls, (attach mutex mapping view n).1)
unfolding attach initialized_count
attach-IsCounted true true true ls n (count, sound) = (rw count (one_more _), (refl, sound))
attach-IsCounted true true false ls n (count, sound) = (count, (refl, sound))
attach-IsCounted true false view ls n (count, sound) = (count, (refl, sound))
attach-IsCounted false true true ls n (count, sound) = (count, (refl, sound))
attach-IsCounted false true false ls n (count, sound) = (count, (refl, sound))
attach-IsCounted false false view ls n (count, sound) = (count, (refl, sound))

detached-count :
    (pid : ℕ) (l : Library) (k m : ℕ)
    → IsSound l
    → m ≡ k + (if l.initialized then 1 else 0)
    → (detach pid l (pos m)).1 ≡ pos k
unfolding detach
detached-count pid l k m sound h = rw h (ground (arith, one_less k))

step-IsCounted : (s t : List Library × ℤ) → Step s t → IsCounted s → IsCounted t
step-IsCounted _ _ (attaches mutex mapping view ls n) h = attach-IsCounted mutex mapping view ls n h
step-IsCounted _ _ (detaches pid before l after n) (count, sound) =
    let (here, rest) = IsSound-split before l after sound in
    (rw count (detached-count pid l _ _ here (count-removed before l after)), rest)

-- However processes attach and detach and whatever Windows answers them, the instance count is the
-- number of the attached processes in which the library is initialized.
pub Reached-IsCounted : (s : List Library × ℤ) → Reached s → IsCounted s
unfolding initialized_count
Reached-IsCounted _ start = (refl, tt)
Reached-IsCounted _ (next s t before step) = step-IsCounted s t step (Reached-IsCounted s before)
