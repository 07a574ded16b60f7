-- ===== src/Shell/Command/Carried.antt =====
-- A command that the client prints is the one that the shell carries out.
use seamlessrdp.Base.{
  ℕ, ◌+◌, ◌-◌, ◌^◌, ◌≤◌, ◌<◌, ◌≡◌, ◌≢◌, refl, ap, List, [], ◌∷◌, ◌++◌, Option, none, some, Bytes,
  IsText, All, All-append, codes, arith, length, map, replicate,
}
use seamlessrdp.Base.Int.{ℤ, pos_part, neg_part}
use seamlessrdp.Shared.{long_to_hwnd}
use seamlessrdp.Shell.Escape.Percent.{Encodes}
use seamlessrdp.Shell.Tokens.Fields.{IsField, join}
use seamlessrdp.Shell.Number.Printed.{strtoul-decimal, strtoul-print_hex, strtol-print_int}
use seamlessrdp.Vchannel.Serial.{decimal}
use seamlessrdp.Vchannel.Format.{print_hex, print_int}
use seamlessrdp.Vchannel.Format.Plain as Plain
use seamlessrdp.Vchannel.Text.Filter.{IsPlain}
use seamlessrdp.Shell.Command.{
  Call, sync, set_state, move_window, zchange, focus, destroy, spawn, persistent, done, equal,
  dispatch, handle_line,
}
use seamlessrdp.Shell.Command.Arity.{IsLineOf, handle_line-dispatch}

-- The name and the fields of a command; a window is printed as the `long` that stands for it. DESTROY
-- has a field in front of the window that is not read.
abbrev pub name_of : Call → Bytes
name_of sync = codes "SYNC"
name_of (set_state serial hwnd s) = codes "STATE"
name_of (move_window serial hwnd x y width height) = codes "POSITION"
name_of (zchange serial hwnd behind) = codes "ZCHANGE"
name_of (focus serial hwnd) = codes "FOCUS"
name_of (destroy hwnd) = codes "DESTROY"
name_of (spawn serial cmd) = codes "SPAWN"
name_of (persistent serial enable) = codes "PERSISTENT"

abbrev pub fields_of : Call → List Bytes
fields_of sync = []
fields_of (set_state serial hwnd s) = decimal serial ∷ print_hex hwnd ∷ print_int s ∷ []
fields_of (move_window serial hwnd x y width height) =
    decimal serial
    ∷ print_hex hwnd
    ∷ print_int x
    ∷ print_int y
    ∷ print_int width
    ∷ print_int height
    ∷ []
fields_of (zchange serial hwnd behind) = decimal serial ∷ print_hex hwnd ∷ print_hex behind ∷ []
fields_of (focus serial hwnd) = decimal serial ∷ print_hex hwnd ∷ []
fields_of (destroy hwnd) = decimal 0 ∷ print_hex hwnd ∷ []
fields_of (spawn serial cmd) = decimal serial ∷ cmd ∷ []
fields_of (persistent serial enable) = decimal serial ∷ print_int enable ∷ []

-- the same command for the windows themselves
abbrev pub carried : Call → Call
carried sync = sync
carried (set_state serial hwnd s) = set_state serial (long_to_hwnd hwnd) s
carried (move_window serial hwnd x y width height) =
    move_window serial (long_to_hwnd hwnd) x y width height
carried (zchange serial hwnd behind) = zchange serial (long_to_hwnd hwnd) (long_to_hwnd behind)
carried (focus serial hwnd) = focus serial (long_to_hwnd hwnd)
carried (destroy hwnd) = destroy (long_to_hwnd hwnd)
carried (spawn serial cmd) = spawn serial cmd
carried (persistent serial enable) = persistent serial enable

abbrev pub IsWord : ℕ → Type 0
IsWord n = n < 2 ^ 32

abbrev pub IsInt : ℤ → Type 0
IsInt a = pos_part a + neg_part a < 2 ^ 31

-- a field that is read back whole
abbrev pub IsClean : Bytes → Type 0
IsClean s = IsText s × IsField s

-- The numbers fit their types, and the command line of an application can be a field.
abbrev pub IsSent : Call → Type 0
IsSent sync = Unit
IsSent (set_state serial hwnd s) = IsWord serial × IsWord hwnd × IsInt s
IsSent (move_window serial hwnd x y width height) =
    IsWord serial × IsWord hwnd × IsInt x × IsInt y × IsInt width × IsInt height
IsSent (zchange serial hwnd behind) = IsWord serial × IsWord hwnd × IsWord behind
IsSent (focus serial hwnd) = IsWord serial × IsWord hwnd
IsSent (destroy hwnd) = IsWord hwnd
IsSent (spawn serial cmd) = IsWord serial × IsClean cmd
IsSent (persistent serial enable) = IsWord serial × IsInt enable

printed-IsClean : {n : ℕ} {s : Bytes} → Plain.IsField n s → IsClean s
printed-IsClean {s = s} f = (
  Plain.All-map IsPlain (λ c. c ≢ 0) s (λ c p. omega arith) f.plain,
  Plain.All-map IsPlain (λ c. c ≢ b',') s (λ c p. p.1) f.plain,
)

decimal-IsClean : (n : ℕ) → IsClean (decimal n)
decimal-IsClean n = printed-IsClean (Plain.decimal-IsField n)

print_hex-IsClean : (n : ℕ) → IsClean (print_hex n)
print_hex-IsClean n = printed-IsClean (Plain.print_hex-IsField n)

print_int-IsClean : (a : ℤ) → IsClean (print_int a)
print_int-IsClean a = printed-IsClean (Plain.print_int-IsField a)

fields_of-IsClean : (c : Call) → IsSent c → All IsClean (fields_of c)
fields_of-IsClean sync h = tt
fields_of-IsClean (set_state serial hwnd s) h =
    (decimal-IsClean serial, (print_hex-IsClean hwnd, (print_int-IsClean s, tt)))
fields_of-IsClean (move_window serial hwnd x y width height) h = (
  decimal-IsClean serial,
  (
    print_hex-IsClean hwnd,
    (
      print_int-IsClean x,
      (print_int-IsClean y, (print_int-IsClean width, (print_int-IsClean height, tt))),
    ),
  ),
)
fields_of-IsClean (zchange serial hwnd behind) h =
    (decimal-IsClean serial, (print_hex-IsClean hwnd, (print_hex-IsClean behind, tt)))
fields_of-IsClean (focus serial hwnd) h = (decimal-IsClean serial, (print_hex-IsClean hwnd, tt))
fields_of-IsClean (destroy hwnd) h = (decimal-IsClean 0, (print_hex-IsClean hwnd, tt))
fields_of-IsClean (spawn serial cmd) h = (decimal-IsClean serial, (h.1, tt))
fields_of-IsClean (persistent serial enable) h =
    (decimal-IsClean serial, (print_int-IsClean enable, tt))

name_of-IsClean : (c : Call) → IsClean (name_of c)
name_of-IsClean sync = (omega arith, omega arith)
name_of-IsClean (set_state serial hwnd s) = (omega arith, omega arith)
name_of-IsClean (move_window serial hwnd x y width height) = (omega arith, omega arith)
name_of-IsClean (zchange serial hwnd behind) = (omega arith, omega arith)
name_of-IsClean (focus serial hwnd) = (omega arith, omega arith)
name_of-IsClean (destroy hwnd) = (omega arith, omega arith)
name_of-IsClean (spawn serial cmd) = (omega arith, omega arith)
name_of-IsClean (persistent serial enable) = (omega arith, omega arith)

All-both {κ μ} :
    {A : Type 0} (P : A → Type κ) (Q : A → Type μ) (xs : List A)
    → All (λ x. P x × Q x) xs
    → All P xs × All Q xs
All-both P Q [] h = (tt, tt)
All-both P Q (x ∷ xs) h = let (ps, qs) = All-both P Q xs h.1 in ((h.0.0, ps), (h.0.1, qs))

-- whatever stands in the tokens behind the fields
dispatch-carried :
    (c : Call) (toks : List (Option Bytes))
    → IsSent c
    → dispatch (name_of c) (map some (fields_of c) ++ toks) ≡ some (some (carried c))
unfolding dispatch equal
dispatch-carried sync toks h = refl
dispatch-carried (set_state serial hwnd s) toks (h1, h2, h3) =
    rw (strtoul-decimal serial h1, strtoul-print_hex hwnd h2, strtol-print_int s h3) refl
dispatch-carried (move_window serial hwnd x y width height) toks (h1, h2, h3, h4, h5, h6) =
    rw
      (
        strtoul-decimal serial h1,
        strtoul-print_hex hwnd h2,
        strtol-print_int x h3,
        strtol-print_int y h4,
        strtol-print_int width h5,
        strtol-print_int height h6,
      )
      refl
dispatch-carried (zchange serial hwnd behind) toks (h1, h2, h3) =
    rw (strtoul-decimal serial h1, strtoul-print_hex hwnd h2, strtoul-print_hex behind h3) refl
dispatch-carried (focus serial hwnd) toks (h1, h2) =
    rw (strtoul-decimal serial h1, strtoul-print_hex hwnd h2) refl
dispatch-carried (destroy hwnd) toks h = rw (strtoul-print_hex hwnd h) refl
dispatch-carried (spawn serial cmd) toks (h1, h2) = rw (strtoul-decimal serial h1) refl
dispatch-carried (persistent serial enable) toks (h1, h2) =
    rw (strtoul-decimal serial h1, strtol-print_int enable h2) refl

map-some-append :
    (xs ys : List Bytes) (toks : List (Option Bytes))
    → map some (xs ++ ys) ++ toks ≡ map some xs ++ (map some ys ++ toks)
map-some-append [] ys toks = refl
map-some-append (x ∷ xs) ys toks = ap (◌∷◌ (some x)) (map-some-append xs ys toks)

-- A line of the client that is the percent-encoded text of a command, whose numbers fit their types and
-- whose command line holds neither a comma nor a NUL, and of further fields, at most seven fields in
-- all, is handled as this command, with the windows that its numbers stand for; and nothing is left of
-- the line.
pub handle_line-carried :
    (c : Call) (extra : List Bytes) (line : Bytes)
    → IsSent c
    → All IsClean extra
    → Encodes line (join (name_of c) (fields_of c ++ extra))
    → length (fields_of c ++ extra) ≤ 7
    → handle_line line ≡ done (some (carried c)) none
handle_line-carried c extra line h clean encodes few =
    let args = fields_of c ++ extra in
    let n = 7 - length args in
    let name = name_of-IsClean c in
    let (texts, fields) =
      All-both IsText IsField args
        (All-append IsClean (fields_of c) extra (fields_of-IsClean c h) clean) in
    let l : IsLineOf line (name_of c) args = record {
      encodes = encodes;
      name_text = name.0;
      args_text = texts;
      name_field = name.1;
      args_field = fields;
    } in
    rw
      (
        handle_line-dispatch line (name_of c) args n l (omega arith),
        map-some-append (fields_of c) extra (replicate n none),
        dispatch-carried c (map some extra ++ replicate n none) h,
      )
      refl
