-- ===== src/Vchannel/Serial.antt =====
-- The serial numbers that `vchannel_process` of ServerExe/vchannel.c takes from a named semaphore, and
-- the lines that it makes with them. The semaphore belongs to Windows and is a parameter.
pub mod Count
pub mod Digits
use seamlessrdp.Base.{
  ℕ, zero, suc, ◌+◌, ◌-◌, ◌/◌, ◌%◌, ◌^◌, ◌≤◌, ◌<◌, ◌≡◌, Bool, true, false, [], ◌∷◌, ◌++◌, Option,
  none, some, Bytes, ◌==◌,
}
use seamlessrdp.Vchannel.Message.{Message}

-- The answer of `ReleaseSemaphore`: done, with the count before; or refused because the count is at
-- its maximum, or for another reason.
pub data Release : Type 0 where
  released : ℕ → Release
  too_many_posts : Release
  refused : Release

-- `release` is `ReleaseSemaphore(h, 1, &prev)`; the flag of `take` is
-- `WaitForSingleObject(h, 0) == WAIT_OBJECT_0`.
pub record Semaphore : Type 1 where
  pub State : Type 0
  pub release : State → Release × State
  pub take : State → Bool × State

-- INT_MAX, the maximum count that `vchannel_open` asks for
abbrev pub int_max : ℕ
int_max = 2 ^ 31 - 1

-- The documented behaviour of a semaphore that nobody else uses.
pub record Counts (sem : Semaphore) : Type 0 where
  pub count : sem.State → ℕ
  pub bounded : (s : sem.State) → count s ≤ int_max
  pub release_below :
      (s : sem.State)
      → count s < int_max
      → ((sem.release s).0 ≡ released (count s)) × (count (sem.release s).1 ≡ count s + 1)
  pub release_full :
      (s : sem.State)
      → count s ≡ int_max
      → ((sem.release s).0 ≡ too_many_posts) × (count (sem.release s).1 ≡ int_max)
  pub take_some :
      (s : sem.State) → 0 < count s → ((sem.take s).0 ≡ true) × (count (sem.take s).1 + 1 ≡ count s)
  pub take_none :
      (s : sem.State) → count s ≡ 0 → ((sem.take s).0 ≡ false) × (count (sem.take s).1 ≡ 0)

-- `%u`, least digit first onto the digits behind it; `fuel` exceeds the number of digits
unfoldable pub decimal_onto : ℕ → ℕ → Bytes → Bytes
decimal_onto zero n acc = acc
decimal_onto (suc fuel) n acc = elim (n / 10 == 0) [
  | true ↦ (b'0' + n % 10) ∷ acc
  | false ↦ decimal_onto fuel (n / 10) ((b'0' + n % 10) ∷ acc)
]

-- an `unsigned` has ten digits at most
unfoldable pub decimal : ℕ → Bytes
unfolding decimal_onto
decimal n = decimal_onto 10 n []

-- `"%s,%u,%s"`
unfoldable pub render : Message → ℕ → Bytes
render m serial = m.command ++ b',' ∷ (decimal serial ++ b',' ∷ m.args)

abbrev pub newline : Bytes
newline = b'\n' ∷ []

-- `WaitForSingleObject(g_vchannel_serial, 0)` while it succeeds
unfoldable pub drain : (sem : Semaphore) → ℕ → sem.State → Option sem.State
drain sem zero s = none
drain sem (suc fuel) s =
    let answer = sem.take s in
    elim (answer.0) [ true ↦ drain sem fuel answer.1 | false ↦ some answer.1 ]

-- the rounds allowed for the reset, one more than a semaphore can be taken
abbrev pub drain_rounds : ℕ
drain_rounds = 2 ^ 31

-- What the serial step leaves: the semaphore and `prev_serial`, or `return -1`.
pub data Step (S : Type 0) : Type 0 where
  numbered : S → ℕ → Step S
  error : S → Step S
  unfinished : Step S

-- the second `ReleaseSemaphore`, behind the reset
unfoldable pub number_again : {S : Type 0} → Release × S → Step S
number_again (released k, s) = numbered s k
number_again (_, s) = error s

-- "Increase serial": `prev` is `prev_serial` before, which a refusal leaves as it is.
unfoldable pub next_serial : (sem : Semaphore) → sem.State → ℕ → Step sem.State
unfolding number_again
next_serial sem s prev =
    let answer = sem.release s in
    elim (answer.0) [
      | released k ↦ numbered answer.1 k
      | refused ↦ numbered answer.1 prev
      | too_many_posts ↦ elim (drain sem drain_rounds answer.1) [
        | none ↦ unfinished
        | some s' ↦ number_again (sem.release s')
      ]
    ]
