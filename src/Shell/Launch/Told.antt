-- ===== src/Shell/Launch/Told.antt =====
-- The user learns of an application that cannot be launched.
use seamlessrdp.Base.{
  ℕ, ◌*◌, ◌<◌, ◌≡◌, ◌≢◌, ◌⊎◌, refl, inl, inr, true, false, List, [], ◌∷◌, ◌++◌, Option, none, some,
  Bytes, arith, ltb, ◌==◌, length, length-append,
}
use seamlessrdp.Shell.Launch.{
  Act, box, create_process_w, launched, utf8_to_utf16, launch_app_w, unable, failure_text,
  show_failure, invalid_unicode, do_spawn,
}

-- What a SPAWN comes to.
pub data Tells (converts : Bytes → List ℕ) (created : Option ℕ) (cmd : Bytes)
    : List Act → Type 0 where
  invalid : converts cmd ≡ [] → Tells converts created cmd (box (some invalid_unicode) ∷ [])
  started :
      (process : ℕ)
      → created ≡ some process
      → Tells converts created cmd (create_process_w (converts cmd) ∷ launched process ∷ [])
  refused :
      created ≡ none
      → Tells converts created cmd
          (create_process_w (converts cmd) ∷ box (some (unable ++ converts cmd)) ∷ [])

list_cases : (s : List ℕ) → (s ≡ []) ⊎ ((length s * 2 == 0) ≡ false)
list_cases [] = inl refl
list_cases (c ∷ s) = inr (ground arith)

utf8_to_utf16-some :
    (converts : Bytes → List ℕ) (input : Bytes)
    → (length (converts input) * 2 == 0) ≡ false
    → (utf8_to_utf16 converts input).1 ≡ some (converts input)
unfolding utf8_to_utf16
utf8_to_utf16-some converts input h = rw h refl

utf8_to_utf16-none :
    (converts : Bytes → List ℕ) (input : Bytes)
    → converts input ≡ []
    → (utf8_to_utf16 converts input).1 ≡ none
unfolding utf8_to_utf16
utf8_to_utf16-none converts input h = rw h refl

show_failure-box :
    (converts : Bytes → List ℕ) (behind cmd : Bytes)
    → converts (unable ++ cmd) ≡ unable ++ converts cmd
    → length cmd < 212
    → show_failure converts behind cmd ≡ box (some (unable ++ converts cmd)) ∷ []
unfolding show_failure failure_text
show_failure-box converts behind cmd ascii fits =
    let short : ltb (length (unable ++ cmd)) 256 ≡ true =
      ground (arith, length-append unable cmd) in
    let some_units : (length (converts (unable ++ cmd)) * 2 == 0) ≡ false =
      rw ascii (ground arith) in
    rw (short, utf8_to_utf16-some converts (unable ++ cmd) some_units, ascii) refl

nonempty : (s : List ℕ) → (length s * 2 == 0) ≡ false → s ≢ []
nonempty [] h = cc
nonempty (c ∷ s) h = λ e. cc

-- For a command line of fewer than 212 bytes, which the message leaves room for, a SPAWN has one of
-- three outcomes: one message box, because the command line is no UTF-8; the application runs; or it
-- cannot be created, and one message box shows the command line behind a text that says so. `ascii`
-- says that ASCII in front of a text that can be converted is converted byte by byte.
pub do_spawn-Tells :
    (converts : Bytes → List ℕ) (created : Option ℕ) (behind cmd : Bytes)
    (ascii : converts cmd ≢ [] → converts (unable ++ cmd) ≡ unable ++ converts cmd)
    → length cmd < 212
    → Tells converts created cmd (do_spawn converts created behind cmd)
unfolding do_spawn launch_app_w
do_spawn-Tells converts none behind cmd ascii fits = elim (list_cases (converts cmd)) [
  | inl e ↦ rw (do_spawn, utf8_to_utf16-none converts cmd e) (invalid e)
  | inr ne ↦
      rw
        (
          do_spawn,
          utf8_to_utf16-some converts cmd ne,
          show_failure-box converts behind cmd (ascii (nonempty (converts cmd) ne)) fits,
        )
        (refused refl)
]
do_spawn-Tells converts (some process) behind cmd ascii fits = elim (list_cases (converts cmd)) [
  | inl e ↦ rw (do_spawn, utf8_to_utf16-none converts cmd e) (invalid e)
  | inr ne ↦ rw (do_spawn, utf8_to_utf16-some converts cmd ne) (started process refl)
]
