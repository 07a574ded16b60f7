-- ===== src/Vchannel/Message/Stored.antt =====
-- A message that fits is queued behind the others.
use seamlessrdp.Base.{
  ◌+◌, ◌<◌, ◌≡◌, refl, ap, ◌∙◌, List, [], ◌∷◌, ◌++◌, append_assoc, arith, length, length-append,
}
use seamlessrdp.Vchannel.Buffer.{Buffer, IsValid, put_string}
use seamlessrdp.Vchannel.Buffer.Window.{used, contents}
use seamlessrdp.Vchannel.Buffer.Strings.{length-contents, put_string-Stored}
use seamlessrdp.Vchannel.Message.{Message, message_size, encode, Holds, store}

encode-concat :
    (q : List Message) (m : Message)
    → encode (q ++ m ∷ []) ≡ encode q ++ (m.command ++ 0 ∷ []) ++ (m.args ++ 0 ∷ [])
encode-concat [] m = simp append_assoc
encode-concat (n ∷ q) m = simp (encode-concat q m, append_assoc)

pub record Queued (b : Buffer) (q : List Message) (b' : Buffer) : Type 0 where
  pub valid : IsValid b'
  pub same_size : b'.size ≡ b.size
  pub holds : Holds b' q

-- Into a valid buffer that holds the messages `q` and has room for one more, the copying loops of
-- `vchannel_write` put the message behind those of `q`, and leave the buffer valid.
pub store-Queued :
    (b : Buffer) (q : List Message) (m : Message)
    → IsValid b
    → Holds b q
    → used b + message_size m < b.size
    → Queued b (q ++ m ∷ []) (store b m)
unfolding store
store-Queued b q m v h fits =
    let first = put_string-Stored b m.command v (omega arith) in
    let b1 = put_string b m.command in
    let grown : used b1 ≡ used b + length m.command + 1 = omega (
      arith,
      length-contents b,
      length-contents b1,
      ap length first.appended,
      length-append (contents b) (m.command ++ 0 ∷ []),
      length-append m.command (0 ∷ []),
    ) in
    let second = put_string-Stored b1 m.args first.valid (omega (arith, first.same_size)) in
    record {
      valid = second.valid;
      same_size = second.same_size ∙ first.same_size;
      holds = rw (second.appended, first.appended, h, encode-concat) refl;
    }
