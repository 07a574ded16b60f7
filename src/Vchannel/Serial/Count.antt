-- ===== src/Vchannel/Serial/Count.antt =====
-- The serial numbers run through 0 … INT_MAX - 1 and start again.
use seamlessrdp.Base.{ℕ, zero, suc, ◌+◌, ◌<◌, ◌≡◌, some, arith, dec_lt, ◌==◌, if◌then◌else◌}
use seamlessrdp.Vchannel.Serial.{
  Semaphore, Counts, int_max, drain, drain_rounds, numbered, next_serial, number_again,
}

-- the serial number of the next message, where the semaphore's count is `k`
abbrev pub issued : ℕ → ℕ
issued k = if k == int_max then 0 else k

module _ (sem : Semaphore) (law : Counts sem) where
  -- Taking the semaphore until it refuses ends, and leaves the count 0.
  drain-count :
      (fuel : ℕ) (s : sem.State)
      → law.count s < fuel
      → (s' : sem.State) × (drain sem fuel s ≡ some s') × (law.count s' ≡ 0)
  unfolding drain
  drain-count zero s h = absurd (omega arith)
  drain-count (suc fuel) s h = elim (dec_lt 0 (law.count s)) [
    | yes p ↦
        let (taken, less) = law.take_some s p in
        let (s', e, z) = drain-count fuel (sem.take s).1 (omega arith) in
        (s', rw (drain, taken) e, z)
    | no p ↦
        let (refused, none_left) = law.take_none s (omega arith) in
        ((sem.take s).1, rw (drain, refused), none_left)
  ]

  -- On a semaphore that counts, the serial step always yields a number: the count, or 0 when the
  -- count is at its maximum. The count is one more behind it.
  pub next_serial-issued :
      (s : sem.State) (prev : ℕ)
      → (s' : sem.State) × (next_serial sem s prev ≡ numbered s' (issued (law.count s)))
        × (law.count s' ≡ issued (law.count s) + 1)
  unfolding next_serial
  next_serial-issued s prev = elim (dec_lt (law.count s) int_max) [
    | yes p ↦
        let (done, more) = law.release_below s p in
        let same : issued (law.count s) ≡ law.count s = ground arith in
        ((sem.release s).1, rw (next_serial, done, same), rw same more)
    | no p ↦
        let full : law.count s ≡ int_max = omega (arith, law.bounded s) in
        let (refused, still) = law.release_full s full in
        let (s', drained, empty) =
          drain-count drain_rounds (sem.release s).1 (omega (arith, still)) in
        let (done, more) = law.release_below s' (omega arith) in
        let again : issued (law.count s) ≡ 0 = ground arith in
        (
          (sem.release s').1,
          rw (next_serial, refused, drained, number_again, done, again, empty),
          omega arith,
        )
  ]
