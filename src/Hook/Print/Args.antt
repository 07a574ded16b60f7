-- ===== src/Hook/Print/Args.antt =====
-- The texts of a message: its name, and its fields with their lengths.
use seamlessrdp.Base.{
  ℕ, suc, ◌+◌, ◌≤◌, ◌≢◌, List, [], ◌∷◌, Bytes, All, All-append, arith, length, length-append, codes,
}
use seamlessrdp.Base.Int.{to_u32}
use seamlessrdp.Shell.Tokens.Fields.{join}
use seamlessrdp.Vchannel.Text.{strfilter}
use seamlessrdp.Vchannel.Text.Filter.{IsPlain, strfilter-IsPlain}
use seamlessrdp.Vchannel.Format.{print_hex}
use seamlessrdp.Vchannel.Format.Plain.{
  IsField, All-map, print_hex-IsField, decimal-IsField, print_int-IsField,
}
use seamlessrdp.Hook.{
  Msg, create, title, set_icon, del_icon, position, zchange, state, destroy, destroy_group, ack,
  debug, hello, hide, unhide, sync_begin, sync_end, listed_title,
}
use seamlessrdp.Hook.Print.{command_of, fields_of}

-- The texts that callers pass on: a filtered title, an icon's digits, the buffer of `vchannel_debug`.
abbrev pub IsWritable : Msg → Type 0
IsWritable (title h text) = IsField 447 text
IsWritable (set_icon h i side text) = IsField 800 text
IsWritable (debug text) = length text ≤ 255
IsWritable (listed_title h text) = IsField 447 text
IsWritable _ = Unit

-- Fields with commas between them, of `n` bytes at most.
pub data IsArgs : ℕ → Bytes → List Bytes → Type 0 where
  last : {n : ℕ} {f : Bytes} → IsField n f → IsArgs n f []
  more :
      {n k : ℕ} {f g : Bytes} {fs : List Bytes}
      → IsField n f
      → IsArgs k g fs
      → IsArgs (n + 1 + k) f (g ∷ fs)

-- a byte that is no control character
abbrev pub IsPrinted : ℕ → Type 0
IsPrinted c = 0x20 ≤ c

plain-IsPrinted : (s : Bytes) → All IsPlain s → All IsPrinted s
plain-IsPrinted s h = All-map IsPlain IsPrinted s (λ c p. p.0) h

plain-IsText : (s : Bytes) → All IsPlain s → All (λ c. c ≢ b',') s
plain-IsText s h = All-map IsPlain (λ c. c ≢ b',') s (λ c p. p.1) h

pub length-join : {n : ℕ} {f : Bytes} {fs : List Bytes} → IsArgs n f fs → length (join f fs) ≤ n
length-join (last h) = h.short
length-join (more {f = f} {g = g} {fs = fs} h hs) =
    omega (arith, h.short, length-join hs, length-append f (b',' ∷ join g fs))

pub join-IsPrinted :
    {n : ℕ} {f : Bytes} {fs : List Bytes} → IsArgs n f fs → All IsPrinted (join f fs)
join-IsPrinted (last {f = f} h) = plain-IsPrinted f h.plain
join-IsPrinted (more {f = f} {g = g} {fs = fs} h hs) =
    All-append IsPrinted f (b',' ∷ join g fs) (plain-IsPrinted f h.plain)
      (omega arith, join-IsPrinted hs)

pub first-IsField : {n : ℕ} {f : Bytes} {fs : List Bytes} → IsArgs n f fs → All (λ c. c ≢ b',') f
first-IsField (last {f = f} h) = plain-IsText f h.plain
first-IsField (more {f = f} h hs) = plain-IsText f h.plain

pub rest-IsField :
    {n : ℕ} {f : Bytes} {fs : List Bytes} → IsArgs n f fs → All (λ s. All (λ c. c ≢ b',') s) fs
rest-IsField (last h) = tt
rest-IsField (more h hs) = (first-IsField hs, rest-IsField hs)

-- a command's name
pub record IsName (s : Bytes) : Type 0 where
  pub printed : All IsPrinted s
  pub one : All (λ c. c ≢ b',') s
  pub short : length s ≤ 10

pub command_of-IsName : (m : Msg) → IsName (command_of m)
unfolding command_of
command_of-IsName (create h pid parent flags) = record {
  printed = omega arith;
  one = omega arith;
  short = omega arith;
}
command_of-IsName (title h text) = record {
  printed = omega arith;
  one = omega arith;
  short = omega arith;
}
command_of-IsName (set_icon h i side text) = record {
  printed = omega arith;
  one = omega arith;
  short = omega arith;
}
command_of-IsName (del_icon h side) = record {
  printed = omega arith;
  one = omega arith;
  short = omega arith;
}
command_of-IsName (position h x y width height) = record {
  printed = omega arith;
  one = omega arith;
  short = omega arith;
}
command_of-IsName (zchange h behind flags) = record {
  printed = omega arith;
  one = omega arith;
  short = omega arith;
}
command_of-IsName (state h s) = record {
  printed = omega arith;
  one = omega arith;
  short = omega arith;
}
command_of-IsName (destroy h) = record {
  printed = omega arith;
  one = omega arith;
  short = omega arith;
}
command_of-IsName (destroy_group pid) = record {
  printed = omega arith;
  one = omega arith;
  short = omega arith;
}
command_of-IsName (ack serial) = record {
  printed = omega arith;
  one = omega arith;
  short = omega arith;
}
command_of-IsName (debug text) = record {
  printed = omega arith;
  one = omega arith;
  short = omega arith;
}
command_of-IsName (hello flags) = record {
  printed = omega arith;
  one = omega arith;
  short = omega arith;
}
command_of-IsName hide = record { printed = omega arith; one = omega arith; short = omega arith }
command_of-IsName unhide = record { printed = omega arith; one = omega arith; short = omega arith }
command_of-IsName sync_begin = record {
  printed = omega arith;
  one = omega arith;
  short = omega arith;
}
command_of-IsName sync_end = record {
  printed = omega arith;
  one = omega arith;
  short = omega arith;
}
command_of-IsName (listed_title h text) = record {
  printed = omega arith;
  one = omega arith;
  short = omega arith;
}

-- a blank in front of a field
spaced : (n : ℕ) (s : Bytes) → IsField n s → IsField (suc n) (b' ' ∷ s)
spaced n s h = record {
  plain = ((omega arith, omega arith), h.plain);
  short = omega (arith, h.short);
}

rgba-IsField : IsField 4 (codes "RGBA")
rgba-IsField = record { plain = omega arith; short = omega arith }

zero-IsField : IsField 3 (codes "0x0")
zero-IsField = record { plain = omega arith; short = omega arith }

filtered-IsField : (n : ℕ) (s : Bytes) → length s ≤ n → IsField n (strfilter s)
filtered-IsField n s h =
    let (plain, same) = strfilter-IsPlain s in record { plain = plain; short = omega (arith, same) }

-- the bound of the arguments
pub fields_of-IsArgs :
    (m : Msg) → IsWritable m → (n : ℕ) × (IsArgs n (fields_of m).0 (fields_of m).1 × (n ≤ 858))
unfolding fields_of
fields_of-IsArgs (create h pid parent flags) w = (
  _,
  (
    more (print_hex-IsField h) (
        more (print_hex-IsField pid)
          (more (print_hex-IsField parent) (last (print_hex-IsField flags)))),
    omega arith,
  ),
)
fields_of-IsArgs (title h text) w =
    (_, (more (print_hex-IsField h) (more w (last (print_hex-IsField 0))), omega arith))
fields_of-IsArgs (set_icon h i side text) w = (
  _,
  (
    more (print_hex-IsField h) (
        more (decimal-IsField i)
          (more rgba-IsField (more (decimal-IsField side) (more (decimal-IsField side) (last w))))),
    omega arith,
  ),
)
fields_of-IsArgs (del_icon h side) w = (
  _,
  (
    more (print_hex-IsField h)
        (more rgba-IsField (more (decimal-IsField side) (last (decimal-IsField side)))),
    omega arith,
  ),
)
fields_of-IsArgs (position h x y width height) w = (
  _,
  (
    more (print_hex-IsField h) (
        more (print_int-IsField x) (
          more (print_int-IsField y) (
            more (print_int-IsField width)
              (more (print_int-IsField height) (last (print_hex-IsField 0)))))),
    omega arith,
  ),
)
fields_of-IsArgs (zchange h behind flags) w = (
  _,
  (
    more (print_hex-IsField h) (more (print_hex-IsField behind) (last (print_hex-IsField flags))),
    omega arith,
  ),
)
fields_of-IsArgs (state h s) w = (
  _,
  (
    more (print_hex-IsField h) (more (print_hex-IsField (to_u32 s)) (last (print_hex-IsField 0))),
    omega arith,
  ),
)
fields_of-IsArgs (destroy h) w =
    (_, (more (print_hex-IsField h) (last (print_hex-IsField 0)), omega arith))
fields_of-IsArgs (destroy_group pid) w = (
  _,
  (
    more (print_hex-IsField pid) (last (spaced 10 (print_hex 0) (print_hex-IsField 0))),
    omega arith,
  ),
)
fields_of-IsArgs (ack serial) w = (_, (last (decimal-IsField serial), omega arith))
fields_of-IsArgs (debug text) w = (_, (last (filtered-IsField 255 text w), omega arith))
fields_of-IsArgs (hello flags) w = (_, (last (print_hex-IsField flags), omega arith))
fields_of-IsArgs hide w = (_, (last (print_hex-IsField 0), omega arith))
fields_of-IsArgs unhide w = (_, (last (print_hex-IsField 0), omega arith))
fields_of-IsArgs sync_begin w = (_, (last zero-IsField, omega arith))
fields_of-IsArgs sync_end w = (_, (last zero-IsField, omega arith))
fields_of-IsArgs (listed_title h text) w =
    (_, (more (print_hex-IsField h) (more w (last zero-IsField)), omega arith))
