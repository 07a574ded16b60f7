-- ===== src/Shell/Command/Equal.antt =====
-- `strcmp` for equality.
use seamlessrdp.Base.{◌≡◌, ◌≢◌, refl, true, false, inl, inr, [], ◌∷◌, Bytes, arith, Bool-cases}
use seamlessrdp.Shell.Command.{equal}

pub equal-true : (s t : Bytes) → equal s t ≡ true → s ≡ t
unfolding equal
equal-true [] [] h = refl
equal-true [] (d ∷ t) h = cc
equal-true (c ∷ s) [] h = cc
equal-true (c ∷ s) (d ∷ t) h =
    let first : c ≡ d = ground arith in
    let rest : equal s t ≡ true = ground arith in cc (first, equal-true s t rest)

pub equal_self : (s : Bytes) → equal s s ≡ true
unfolding equal
equal_self [] = refl
equal_self (c ∷ s) = ground (arith, equal_self s)

pub equal-ne : (s t : Bytes) → s ≢ t → equal s t ≡ false
equal-ne s t ne = elim (Bool-cases (equal s t)) [
  | inl same ↦ absurd (ne (equal-true s t same))
  | inr differs ↦ differs
]
