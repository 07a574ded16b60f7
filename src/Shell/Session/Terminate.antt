-- ===== src/Shell/Session/Terminate.antt =====
-- When `should_terminate` lets the session end.
use seamlessrdp.Base.{
  ℕ_discrete, ℕ, zero, suc, Option-cases, ◌+◌, ◌≤◌, ◌≡◌, ◌≢◌, ◌↔◌, ◌⊎◌, inl, inr, refl, true, false,
  List, [], ◌∷◌, Option, none, some, All, arith, Bool-cases,
}
use seamlessrdp.Base.Int.{ℤ, pos, negsuc}
use seamlessrdp.Shell.Session.{
  Process, Session, is_set, is_system, is_startup, only_known, should_terminate, session_timeout,
}
use seamlessrdp.Shell.Session.Known.{
  IsKnown, other_session, system, startup, unknown, is_system-Mem, is_startup-Mem,
}

only_known_cases :
    (s : Session) (p : Process) (ps : List Process)
    → ((p.session_id ≢ s.session_id) × (only_known s (p ∷ ps) ≡ only_known s ps))
      ⊎ ((is_system s.system_procs p.name ≡ true) × (only_known s (p ∷ ps) ≡ only_known s ps))
      ⊎ ((is_startup s.startup_procs p.process_id ≡ true)
          × (only_known s (p ∷ ps) ≡ only_known s ps))
      ⊎ ((¬ IsKnown s p) × (only_known s (p ∷ ps) ≡ false))
unfolding only_known
only_known_cases s p ps = elim (ℕ_discrete p.session_id s.session_id) [
  | no ne ↦ inl (ne, ground arith)
  | yes same ↦ elim (Bool-cases (is_system s.system_procs p.name)) [
    | inl sys ↦ inr (inl (sys, ground arith))
    | inr nsys ↦ elim (Bool-cases (is_startup s.startup_procs p.process_id)) [
      | inl st ↦ inr (inr (inl (st, ground arith)))
      | inr nst ↦ inr (inr (inr ((λ k. unknown s p same nsys nst k), ground arith)))
    ]
  ]
]

only_known-All : (s : Session) (ps : List Process) → only_known s ps ≡ true → All (IsKnown s) ps
unfolding only_known
only_known-All s [] h = tt
only_known-All s (p ∷ ps) h = elim (only_known_cases s p ps) [
  | inl (ne, e) ↦ (other_session ne, only_known-All s ps (rw e at h))
  | inr (inl (sys, e)) ↦
      let (n, at, alike) = is_system-Mem s.system_procs p.name sys in
      (system n at alike, only_known-All s ps (rw e at h))
  | inr (inr (inl (st, e))) ↦
      (startup (is_startup-Mem s.startup_procs p.process_id st), only_known-All s ps (rw e at h))
  | inr (inr (inr (bad, e))) ↦ cc
]

All-only_known : (s : Session) (ps : List Process) → All (IsKnown s) ps → only_known s ps ≡ true
unfolding only_known
All-only_known s [] h = refl
All-only_known s (p ∷ ps) h = elim (only_known_cases s p ps) [
  | inl (ne, e) ↦ rw e (All-only_known s ps h.1)
  | inr (inl (sys, e)) ↦ rw e (All-only_known s ps h.1)
  | inr (inr (inl (st, e))) ↦ rw e (All-only_known s ps h.1)
  | inr (inr (inr (bad, e))) ↦ absurd (bad h.0)
]

-- The reasons for which a session ends.
pub data Ends (now mbox_cnt : ℕ) (procs : Option (List Process)) (s : Session) : Type 0 where
  -- a persistent session has been disconnected for a minute
  timed_out :
      s.connected ≡ false
      → s.persistent_mode ≢ pos 0
      → s.disconnect_ts ≢ 0
      → s.disconnect_ts + session_timeout ≤ now
      → Ends now mbox_cnt procs s
  -- no message box is open, and the processes cannot be listed
  no_list : s.persistent_mode ≡ pos 0 → mbox_cnt ≡ 0 → procs ≡ none → Ends now mbox_cnt procs s
  -- no message box is open, and each process of the session is a system process or one that ran at
  -- the start
  nothing_left :
      (ps : List Process)
      → s.persistent_mode ≡ pos 0
      → mbox_cnt ≡ 0
      → procs ≡ some ps
      → All (IsKnown s) ps
      → Ends now mbox_cnt procs s

is_set-true : (n : ℤ) → n ≢ pos 0 → is_set n ≡ true
is_set-true (pos zero) h = absurd (h refl)
is_set-true (pos (suc n)) h = ground arith
is_set-true (negsuc n) h = ground arith

-- how `persistent_mode` is tested
is_set_cases : (n : ℤ) → ((is_set n ≡ true) × (n ≢ pos 0)) ⊎ ((is_set n ≡ false) × (n ≡ pos 0))
is_set_cases (pos zero) = inr (refl, refl)
is_set_cases (pos (suc n)) = inl (ground arith, λ e. ground arith)
is_set_cases (negsuc n) = inl (ground arith, λ e. cc)

module _ (now mbox_cnt : ℕ) (procs : Option (List Process)) (s : Session) where
  persistent-Ends :
      is_set s.persistent_mode ≡ true
      → s.persistent_mode ≢ pos 0
      → should_terminate now mbox_cnt procs s ≡ true
      → Ends now mbox_cnt procs s
  unfolding should_terminate
  persistent-Ends set ne h =
      let off : s.connected ≡ false = ground arith in
      let started : s.disconnect_ts ≢ 0 = ground arith in timed_out off ne started (ground arith)

  transient-Ends :
      is_set s.persistent_mode ≡ false
      → s.persistent_mode ≡ pos 0
      → should_terminate now mbox_cnt procs s ≡ true
      → Ends now mbox_cnt procs s
  unfolding should_terminate
  transient-Ends unset zero_mode h =
      let closed : mbox_cnt ≡ 0 = ground arith in
      elim (Option-cases procs) [
        | inl gone ↦ no_list zero_mode closed gone
        | inr (ps, e) ↦
            let all : only_known s ps ≡ true = ground arith in
            nothing_left ps zero_mode closed e (only_known-All s ps all)
      ]

  Ends-should_terminate : Ends now mbox_cnt procs s → should_terminate now mbox_cnt procs s ≡ true
  unfolding should_terminate
  Ends-should_terminate (timed_out off ne started late) =
      let set = is_set-true s.persistent_mode ne in ground arith
  Ends-should_terminate (no_list unset closed gone) =
      rw (should_terminate, unset, closed, gone) (ground arith)
  Ends-should_terminate (nothing_left ps unset closed e all) =
      let known = All-only_known s ps all in ground arith

  -- `should_terminate` answers true exactly for one of these reasons: a persistent session has been
  -- disconnected for at least a minute; or the session is not persistent, no message box is open, and
  -- the processes cannot be listed or each of them belongs to another session, has the name of a
  -- system process, small and capital letters being the same, or an id from the start.
  pub should_terminate-Ends :
      (should_terminate now mbox_cnt procs s ≡ true) ↔ Ends now mbox_cnt procs s
  should_terminate-Ends = (
    λ h. elim (is_set_cases s.persistent_mode) [
      | inl (set, ne) ↦ persistent-Ends set ne h
      | inr (unset, zero_mode) ↦ transient-Ends unset zero_mode h
    ],
    Ends-should_terminate,
  )
