-- ===== src/Vchannel/Read/Tests.antt =====
-- Lines that arrive in pieces.
use seamlessrdp.Base.{◌≡◌, refl, true, false, [], ◌++◌, some, Bytes, codes, arith, replicate}
use seamlessrdp.Vchannel.Buffer.{max_line}
use seamlessrdp.Vchannel.Read.{Reader, line, take_line, read}
use seamlessrdp.Vchannel.Read.Line.{Shows, Reads, read-Reads}
use seamlessrdp.Vchannel.Read.Line.Overflow.{read-overflow_ends}

abbrev zeros : Bytes
zeros = replicate max_line 0

abbrev fresh : Reader
fresh = record { overflow_mode = false; buffer = zeros; size = 0 }

abbrev skipping : Reader
skipping = record { overflow_mode = true; buffer = zeros; size = 0 }

fresh-Shows : Shows fresh []
fresh-Shows = record { tail = zeros; layout = refl; count = refl; whole = refl }

skipping-Shows : Shows skipping []
skipping-Shows = record { tail = zeros; layout = refl; count = refl; whole = refl }

abbrev chunk : Bytes
chunk = codes "SYNC\nFO"

read-chunk : (read max_line (some chunk) fresh).0 ≡ line (codes "SYNC")
unfolding read take_line
read-chunk = refl

read-Reads_example :
    Reads ([] ++ chunk) (read max_line (some chunk) fresh).0 (read max_line (some chunk) fresh).1
read-Reads_example =
    read-Reads max_line fresh [] chunk (omega arith) refl fresh-Shows (omega arith) (omega arith)

read-overflow_ends_example :
    Reads
      (codes "FOCUS")
      (read max_line (some (codes "AB\nFOCUS")) skipping).0
      (read max_line (some (codes "AB\nFOCUS")) skipping).1
read-overflow_ends_example =
    read-overflow_ends max_line skipping (codes "AB") (codes "FOCUS") (omega arith) refl
      skipping-Shows (omega arith) (omega arith) (omega arith)
