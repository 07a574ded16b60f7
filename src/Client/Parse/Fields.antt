-- ===== src/Client/Parse/Fields.antt =====
-- Texts of the form that the plug-in reads, and what a tokenizer makes of them. Nothing in ServerExe sends
-- them: its own lines have other names and commas.
use seamlessrdp.Base.{
  ℕ, suc, ◌≤◌, ◌<◌, ◌≡◌, ◌≢◌, refl, List, [], ◌∷◌, ◌++◌, Bytes, All, All-append, arith, codes,
  length,
}
use seamlessrdp.Base.Int.{ℤ, pos, negsuc}
use seamlessrdp.Vchannel.Serial.{decimal}
use seamlessrdp.Vchannel.Serial.Digits.{IsDigit, decimal-IsDigit, length-decimal}
use seamlessrdp.Vchannel.Format.{print_int}
use seamlessrdp.Vchannel.Format.Plain.{All-map}
use seamlessrdp.Client.{Tokenizer}

-- A token has bytes, none of which is the delimiter.
pub record IsToken (d : ℕ) (s : Bytes) : Type 0 where
  pub one : All (λ c. c ≢ d) s
  pub some_bytes : s ≢ []

-- tokens with the delimiter between them
abbrev pub delimited : ℕ → Bytes → List Bytes → Bytes
delimited d f [] = f
delimited d f (g ∷ fs) = f ++ d ∷ delimited d g fs

-- The documented behaviour of the tokenizer on such a text.
abbrev pub Splits : Tokenizer → Type 0
Splits tokens =
    (d : ℕ) (f : Bytes) (fs : List Bytes)
    → IsToken d f
    → All (IsToken d) fs
    → tokens d (delimited d f fs) ≡ f ∷ fs

-- the types of message that `VirtualChannelOpenEvent` tells apart
pub data Kind : Type 0 where
  window_created : Kind
  window_destroyed : Kind
  min_max : Kind
  move_size : Kind
  moving : Kind

abbrev pub name_of : Kind → Bytes
name_of window_created = codes "HSHELL_WINDOWCREATED"
name_of window_destroyed = codes "HSHELL_WINDOWDESTROYED"
name_of min_max = codes "HCBT_MINMAX"
name_of move_size = codes "HCBT_MOVESIZE"
name_of moving = codes "CALLWNDPROC_WM_MOVING"

pub record Corners : Type 0 where
  pub x1 : ℤ
  pub y1 : ℤ
  pub x2 : ℤ
  pub y2 : ℤ

abbrev pub print_place : Corners → Bytes
print_place p =
    delimited b'~' (print_int p.x1) (print_int p.y1 ∷ print_int p.x2 ∷ print_int p.y2 ∷ [])

-- a field with its name
abbrev pub named : Bytes → Bytes → Bytes
named name value = delimited b'=' name (value ∷ [])

-- the text of a message
abbrev pub print_message : Kind → Bytes → Bytes → Corners → Bytes
print_message k id title p =
    delimited b';' (named (codes "MSG") (name_of k)) (
      named (codes "ID") id
      ∷ named (codes "TITLE") title
      ∷ named (codes "POS") (print_place p)
      ∷ [])

-- a text that can stand as a value
pub record IsValue (s : Bytes) : Type 0 where
  pub no_equals : IsToken b'=' s
  pub no_semicolon : IsToken b';' s

nonempty : (s : Bytes) → 1 ≤ length s → s ≢ []
nonempty [] h = λ e. omega arith
nonempty (c ∷ s) h = λ e. cc

pub print_int-IsToken : (d : ℕ) (a : ℤ) → b'9' < d → IsToken d (print_int a)
unfolding print_int
print_int-IsToken d (pos n) h = record {
  one = All-map IsDigit (λ c. c ≢ d) (decimal n) (λ c k. omega arith) (decimal-IsDigit n);
  some_bytes = nonempty (decimal n) (length-decimal n).0;
}
print_int-IsToken d (negsuc n) h = record {
  one = (
    omega arith,
    All-map IsDigit (λ c. c ≢ d) (decimal (suc n)) (λ c k. omega arith) (decimal-IsDigit (suc n)),
  );
  some_bytes = λ e. cc;
}

-- tokens of one delimiter behind another one
delimited-IsToken :
    (d d' : ℕ) (f g : Bytes) → d ≢ d' → IsToken d' f → IsToken d' g → IsToken d' (f ++ d ∷ g)
delimited-IsToken d d' [] g ne hf hg = absurd (hf.some_bytes refl)
delimited-IsToken d d' (c ∷ f) g ne hf hg = record {
  one = All-append (λ c'. c' ≢ d') (c ∷ f) (d ∷ g) hf.one (ne, hg.one);
  some_bytes = λ e. cc;
}

print_place-IsToken : (d : ℕ) (p : Corners) → b'9' < d → b'~' ≢ d → IsToken d (print_place p)
print_place-IsToken d p h ne =
    let t = λ (a : ℤ). print_int-IsToken d a h in
    delimited-IsToken b'~' d (print_int p.x1) _ ne (t p.x1) (
      delimited-IsToken b'~' d (print_int p.y1) _ ne (t p.y1)
        (delimited-IsToken b'~' d (print_int p.x2) (print_int p.y2) ne (t p.x2) (t p.y2)))

plain-IsValue :
    (c : ℕ) (s : Bytes)
    → All (λ b. b ≢ b'=') (c ∷ s)
    → All (λ b. b ≢ b';') (c ∷ s)
    → IsValue (c ∷ s)
plain-IsValue c s h k = record {
  no_equals = record { one = h; some_bytes = λ e. cc };
  no_semicolon = record { one = k; some_bytes = λ e. cc };
}

pub name_of-IsValue : (k : Kind) → IsValue (name_of k)
name_of-IsValue window_created = plain-IsValue _ _ (omega arith) (omega arith)
name_of-IsValue window_destroyed = plain-IsValue _ _ (omega arith) (omega arith)
name_of-IsValue min_max = plain-IsValue _ _ (omega arith) (omega arith)
name_of-IsValue move_size = plain-IsValue _ _ (omega arith) (omega arith)
name_of-IsValue moving = plain-IsValue _ _ (omega arith) (omega arith)

pub print_place-IsValue : (p : Corners) → IsValue (print_place p)
print_place-IsValue p = record {
  no_equals = print_place-IsToken b'=' p (omega arith) (omega arith);
  no_semicolon = print_place-IsToken b';' p (omega arith) (omega arith);
}

-- a field is one token of the message
pub named-IsToken :
    (c : ℕ) (name value : Bytes)
    → All (λ b. b ≢ b';') (c ∷ name)
    → IsValue value
    → IsToken b';' (named (c ∷ name) value)
named-IsToken c name value h v =
    delimited-IsToken b'=' b';' (c ∷ name) value (omega arith)
      (record { one = h; some_bytes = λ e. cc }) v.no_semicolon
