-- ===== src/Vchannel/Process/Failure.antt =====
-- The error path of `vchannel_process`: `return -1` inside its loop.
use seamlessrdp.Base.{
  ℕ, zero, suc, ◌+◌, ◌≡◌, refl, Bool, true, List, Bytes, arith, ◌⊎◌, inl, inr, Option-cases, some,
}
use seamlessrdp.Vchannel.Serial
use seamlessrdp.Vchannel.Message.{Message}
use seamlessrdp.Vchannel.Serial.{Semaphore, Step, next_serial, numbered}
use seamlessrdp.Vchannel.Process.{error, Shell, transfer, forward, Delivery, process_loop, process}

pub Step-cases :
    {S : Type 0} (e : Step S)
    → ((s : S) × (k : ℕ) × (e ≡ numbered s k))
      ⊎ ((s : S) × (e ≡ Serial.error s))
      ⊎ (e ≡ Serial.unfinished)
Step-cases (numbered s k) = inl (s, k, refl)
Step-cases (Serial.error s) = inr (inl (s, refl))
Step-cases Serial.unfinished = inr (inr refl)

module _ (sem : Semaphore) (accepts : List Bytes → Bytes → Bool) where
  held-forward : (sh : Shell sem) (m : Message) → (forward sem accepts sh m).1.held ≡ sh.held
  unfolding forward
  held-forward sh m = ground arith

  held-transfer :
      (sh : Shell sem) (d : Delivery) (sh' : Shell sem)
      → transfer sem accepts sh ≡ some (d, sh')
      → sh'.held ≡ sh.held
  unfolding transfer forward
  held-transfer sh d sh' e = ground arith

  held-error :
      (fuel n : ℕ) (sh sh' : Shell sem)
      → process_loop sem accepts fuel n sh ≡ (error, sh')
      → sh'.held ≡ sh.held
  unfolding process_loop
  held-error zero n sh sh' e = cc
  held-error (suc fuel) n sh sh' e = elim (Step-cases (next_serial sem sh.serial sh.prev)) [
    | inl (s, k, num) ↦
        let sh1 = record sh { serial = s; prev = k } in
        elim (Option-cases (transfer sem accepts sh1)) [
          | inl over ↦ ground arith
          | inr ((d, sh2), moved) ↦ ground (
            arith,
            held-transfer sh1 d sh2 moved,
            held-error fuel n sh2 sh',
            held-error fuel (n + 1) sh2 sh',
          )
        ]
    | inr (inl (s, stop)) ↦ ground arith
    | inr (inr stop) ↦ ground arith
  ]

  -- When `vchannel_process` returns -1 out of its loop, with the channel open and the buffer mapped,
  -- the mutex is held once more than before the call.
  pub process-error :
      (fuel : ℕ) (woken : Bool) (sh sh' : Shell sem)
      → sh.channel ≡ true
      → sh.mapped ≡ true
      → process sem accepts fuel woken sh ≡ (error, sh')
      → sh'.held ≡ sh.held + 1
  unfolding process
  process-error fuel woken sh sh' channel mapped e =
      ground (arith, held-error fuel 0 (record sh { held = sh.held + 1 }) sh')
