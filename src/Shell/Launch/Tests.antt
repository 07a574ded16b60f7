-- ===== src/Shell/Launch/Tests.antt =====
-- An application that is not there.
use seamlessrdp.Base.{ℕ, refl, List, [], ◌∷◌, ◌++◌, none, Bytes, codes, arith}
use seamlessrdp.Shell.Launch.{do_spawn}
use seamlessrdp.Shell.Launch.Told.{Tells, do_spawn-Tells}

-- the units of an ASCII text and its NUL
abbrev ascii_units : Bytes → List ℕ
ascii_units s = s ++ 0 ∷ []

do_spawn-Tells_example :
    Tells ascii_units none (codes "calc.exe") (do_spawn ascii_units none [] (codes "calc.exe"))
do_spawn-Tells_example =
    do_spawn-Tells ascii_units none [] (codes "calc.exe") (λ ne. refl) (omega arith)
