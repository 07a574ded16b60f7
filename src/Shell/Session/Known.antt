-- ===== src/Shell/Session/Known.antt =====
-- The processes that do not keep a session alive, apart from the tests of `should_terminate`.
use mathlib.Core.List.{Memᴰ}
use seamlessrdp.Base.{
  ℕ_discrete, ℕ, ◌+◌, ◌≤◌, ◌≡◌, ◌≢◌, ◌↔◌, ◌⊎◌, inl, inr, refl, true, false, List, [], ◌∷◌, arith,
  Bool-cases, Bytes, Bool, ◌&&◌, ◌==◌,
}
use seamlessrdp.Shell.Session.{Process, Session, to_lower, equal_nocase, is_system, is_startup}

and_true : (a b : Bool) → (a && b) ≡ true → (a ≡ true) × (b ≡ true)
and_true a b h = ground arith

-- The same letter, small or capital, or the same other byte.
abbrev Alike : ℕ → ℕ → Type 0
Alike a b =
    (a ≡ b) ⊎ ((b'A' ≤ a) × (a ≤ b'Z') × (b ≡ a + 32)) ⊎ ((b'A' ≤ b) × (b ≤ b'Z') × (a ≡ b + 32))

-- texts that differ in capitals at most
pub data SameText : Bytes → Bytes → Type 0 where
  nil : SameText [] []
  cons : {a b : ℕ} {s t : Bytes} → Alike a b → SameText s t → SameText (a ∷ s) (b ∷ t)

to_lower_iff : (a b : ℕ) → ((to_lower a == to_lower b) ≡ true) ↔ Alike a b
unfolding to_lower
to_lower_iff a b = ground arith

equal_nocase-SameText : (s t : Bytes) → equal_nocase s t ≡ true → SameText s t
unfolding equal_nocase
equal_nocase-SameText [] [] h = nil
equal_nocase-SameText [] (b ∷ t) h = cc
equal_nocase-SameText (a ∷ s) [] h = cc
equal_nocase-SameText (a ∷ s) (b ∷ t) h =
    let (first, rest) = and_true (to_lower a == to_lower b) (equal_nocase s t) h in
    cons ((to_lower_iff a b).0 first) (equal_nocase-SameText s t rest)

SameText-equal_nocase : (s t : Bytes) → SameText s t → equal_nocase s t ≡ true
unfolding equal_nocase
SameText-equal_nocase _ _ nil = refl
SameText-equal_nocase _ _ (cons {a = a} {b = b} {s = s} {t = t} same rest) =
    rw ((to_lower_iff a b).1 same, SameText-equal_nocase s t rest) refl

pub is_system-Mem :
    (ss : List Bytes) (name : Bytes)
    → is_system ss name ≡ true
    → (n : Bytes) × Memᴰ n ss × SameText name n
unfolding is_system
is_system-Mem [] name h = cc
is_system-Mem (s ∷ ss) name h = elim (Bool-cases (equal_nocase name s)) [
  | inl same ↦ (s, Memᴰ.head refl, equal_nocase-SameText name s same)
  | inr other ↦
      let (n, at, same) = is_system-Mem ss name (rw (is_system, other) at h) in
      (n, Memᴰ.tail at, same)
]

Mem-is_system :
    (ss : List Bytes) (name n : Bytes) → Memᴰ n ss → SameText name n → is_system ss name ≡ true
unfolding is_system
Mem-is_system [] name n at same = elim at [ ]
Mem-is_system (s ∷ ss) name n (Memᴰ.head e) same =
    rw (SameText-equal_nocase name s (rw (← e) same)) refl
Mem-is_system (s ∷ ss) name n (Memᴰ.tail at) same =
    rw (Mem-is_system ss name n at same) (ground arith)

pub is_startup-Mem : (is : List ℕ) (id : ℕ) → is_startup is id ≡ true → Memᴰ id is
unfolding is_startup
is_startup-Mem [] id h = cc
is_startup-Mem (i ∷ is) id h = elim (ℕ_discrete id i) [
  | yes same ↦ Memᴰ.head same
  | no ne ↦ Memᴰ.tail (is_startup-Mem is id (ground arith))
]

Mem-is_startup : (is : List ℕ) (id : ℕ) → Memᴰ id is → is_startup is id ≡ true
unfolding is_startup
Mem-is_startup [] id at = elim at [ ]
Mem-is_startup (i ∷ is) id (Memᴰ.head e) = ground (arith, e)
Mem-is_startup (i ∷ is) id (Memᴰ.tail at) = ground (arith, Mem-is_startup is id at)

-- A process that does not keep the session alive: it belongs to another session, its name is that of a
-- system process but for capitals, or its id stands among those of the start.
pub data IsKnown (s : Session) (p : Process) : Type 0 where
  other_session : p.session_id ≢ s.session_id → IsKnown s p
  system : (n : Bytes) → Memᴰ n s.system_procs → SameText p.name n → IsKnown s p
  startup : Memᴰ p.process_id s.startup_procs → IsKnown s p

pub unknown :
    (s : Session) (p : Process)
    → p.session_id ≡ s.session_id
    → is_system s.system_procs p.name ≡ false
    → is_startup s.startup_procs p.process_id ≡ false
    → ¬ IsKnown s p
unknown s p same nsys nst (other_session ne) = ne same
unknown s p same nsys nst (system n at alike) =
    absurd (cc (Mem-is_system s.system_procs p.name n at alike, nsys))
unknown s p same nsys nst (startup at) =
    absurd (cc (Mem-is_startup s.startup_procs p.process_id at, nst))
