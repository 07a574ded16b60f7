-- ===== src/Base/Range.antt =====
-- A statement about every number below a small bound, by evaluation.
use seamlessrdp.Base.{ℕ, zero, suc, ◌<◌, ◌≡◌, Bool, true, ◌&&◌, arith}

-- whether `test` succeeds on the numbers below `bound`
unfoldable pub passes : (ℕ → Bool) → ℕ → Bool
passes test zero = true
passes test (suc k) = passes test k && test k

pub passes-below :
    (test : ℕ → Bool) (bound : ℕ) → passes test bound ≡ true → (k : ℕ) → k < bound → test k ≡ true
unfolding passes
passes-below test zero ok k below = absurd (omega arith)
passes-below test (suc bound) ok k below = ground (arith, passes-below test bound _ k)
