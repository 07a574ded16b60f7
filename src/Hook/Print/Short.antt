-- ===== src/Hook/Print/Short.antt =====
-- Every message fits the arrays and the lines that it passes through, and is read back by its fields.
use seamlessrdp.Base.{
  ℕ, suc, ◌≤◌, ◌<◌, ◌≡◌, ◌≢◌, ◌∷◌, none, some, Bytes, IsText, All, All-append, map, arith, length,
  length-append,
}
use seamlessrdp.Shell.Tokens.{get_tokens}
use seamlessrdp.Shell.Tokens.Fields.{join, get_tokens-all}
use seamlessrdp.Vchannel.Buffer.{max_line}
use seamlessrdp.Vchannel.Message.{IsShort, message_size}
use seamlessrdp.Vchannel.Serial.{decimal, render}
use seamlessrdp.Vchannel.Format.Plain.{All-map, decimal-IsField}
use seamlessrdp.Hook.{Msg}
use seamlessrdp.Hook.Print.{command_of, fields_of, print}
use seamlessrdp.Hook.Print.Args.{
  IsWritable, IsPrinted, IsArgs, more, length-join, join-IsPrinted, first-IsField, rest-IsField,
  command_of-IsName, fields_of-IsArgs,
}

printed-IsText : (s : Bytes) → All IsPrinted s → IsText s
printed-IsText s h = All-map IsPrinted (λ c. c ≢ 0) s (λ c p. omega arith) h

-- a line of the message to the client, with its serial number
pub record IsLine (m : Msg) (line : Bytes) (serial : ℕ) : Type 0 where
  pub printed : All IsPrinted line
  pub fits : length line < max_line
  pub read : get_tokens (suc (suc (suc (length (fields_of m).1)))) (some line) ≡ (
    some (command_of m) ∷ some (decimal serial) ∷ some (fields_of m).0 ∷ map some (fields_of m).1,
    none,
  )

-- What a message is on its way.
pub record IsWellFormed (m : Msg) : Type 0 where
  pub short : IsShort (print m)
  pub size : message_size (print m) ≤ 870
  pub line : (serial : ℕ) → IsLine m (render (print m) serial) serial

render-IsLine :
    {n : ℕ} (m : Msg) (serial : ℕ)
    → IsArgs n (fields_of m).0 (fields_of m).1
    → n ≤ 858
    → IsLine m (render (print m) serial) serial
unfolding print render
render-IsLine m serial args small =
    let (first, rest) = fields_of m in
    let name = command_of-IsName m in
    let number = decimal-IsField serial in
    let all = more number args in
    record {
      printed =
          All-append IsPrinted (command_of m) (b',' ∷ join (decimal serial) (first ∷ rest))
            name.printed (omega arith, join-IsPrinted all);
      fits = omega (
        arith,
        name.short,
        small,
        length-join all,
        length-append (command_of m) (b',' ∷ join (decimal serial) (first ∷ rest)),
      );
      read =
          get_tokens-all (command_of m) (decimal serial ∷ first ∷ rest) name.one
            (first-IsField all, rest-IsField all);
    }

-- For each message with writable texts, the command and the arguments that are stored fit the arrays of
-- the reader; and the line that is made of them with any serial number is short enough to be sent, has
-- no control character, and is split at its commas into the command, the serial number and the values
-- that the format was given.
pub print-IsWellFormed : (m : Msg) → IsWritable m → IsWellFormed m
unfolding print
print-IsWellFormed m w =
    let name = command_of-IsName m in
    let (n, (args, small)) = fields_of-IsArgs m w in
    let size = length-join args in
    record {
      short = record {
        command_text = printed-IsText (command_of m) name.printed;
        args_text = printed-IsText (print m).args (join-IsPrinted args);
        command_fits = omega (arith, name.short);
        args_fits = omega (arith, size, small);
      };
      size = omega (arith, name.short, size, small);
      line = λ serial. render-IsLine m serial args small;
    }
