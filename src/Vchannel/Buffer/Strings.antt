-- ===== src/Vchannel/Buffer/Strings.antt =====
-- Copying NUL-terminated strings into the shared buffer and out of it.
use seamlessrdp.Base.{
  ℕ, zero, suc, ◌+◌, ◌<◌, ◌≡◌, ◌≢◌, refl, ap, ◌∙◌, [], ◌∷◌, ◌++◌, append_assoc, some, Bytes, IsText,
  arith, length,
}
use seamlessrdp.Vchannel.Buffer.{Buffer, IsValid, put_byte, put_string, peek, skip, get_string}
use seamlessrdp.Vchannel.Buffer.Window.{
  used, contents, length-window, put_byte-contents, put_byte-IsValid, used-put_byte, skip-IsValid,
  skip-contents,
}

pub length-contents : (b : Buffer) → length (contents b) ≡ used b
length-contents b = length-window b.bytes b.size b.pr (used b)

-- What a copy of `s` into `b` leaves in `b'`.
pub record Stored (b : Buffer) (s : Bytes) (b' : Buffer) : Type 0 where
  pub valid : IsValid b'
  pub same_size : b'.size ≡ b.size
  pub appended : contents b' ≡ contents b ++ (s ++ 0 ∷ [])

-- one more byte in front of the string that was copied
Stored-cons :
    (b : Buffer) (c : ℕ) (s : Bytes) {b' : Buffer}
    → IsValid b
    → used b + 1 < b.size
    → Stored (put_byte b c) s b'
    → Stored b (c ∷ s) b'
unfolding put_byte
Stored-cons b c s v h st = record {
  valid = st.valid;
  same_size = st.same_size;
  appended =
      st.appended
      ∙ ap (λ t. t ++ (s ++ 0 ∷ [])) (put_byte-contents b c v h)
      ∙ append_assoc (contents b) (c ∷ []) (s ++ 0 ∷ []);
}

pub put_string-Stored :
    (b : Buffer) (s : Bytes)
    → IsValid b
    → used b + suc (length s) < b.size
    → Stored b s (put_string b s)
unfolding put_string
put_string-Stored b [] v h = record {
  valid = put_byte-IsValid b 0 v;
  same_size = unfold put_byte in refl;
  appended = put_byte-contents b 0 v h;
}
put_string-Stored b (c ∷ s) v h =
    let fits : used b + 1 < b.size = omega arith in
    let size : (put_byte b c).size ≡ b.size = unfold put_byte in refl in
    Stored-cons b c s v fits (
      put_string-Stored (put_byte b c) s (put_byte-IsValid b c v)
        (omega (arith, used-put_byte b c v fits, size)))

-- What a read leaves in `b'` of the buffer `b`: the bytes `rest`.
pub record Taken (b : Buffer) (rest : Bytes) (b' : Buffer) : Type 0 where
  pub valid : IsValid b'
  pub same_size : b'.size ≡ b.size
  pub remaining : contents b' ≡ rest

pub skip-Taken :
    (b : Buffer) (c : ℕ) (rest : Bytes)
    → IsValid b
    → contents b ≡ c ∷ rest
    → (peek b ≡ c) × Taken b rest (skip b)
skip-Taken b c rest v e =
    let some_used : used b ≢ 0 = omega (arith, length-contents b, ap length e) in
    let split : contents b ≡ peek b ∷ contents (skip b) = skip-contents b v some_used in
    (cc, record { valid = skip-IsValid b v; same_size = unfold skip in refl; remaining = cc })

-- A string at the front of the unread bytes is read back whole, and nothing behind it.
pub get_string-Taken :
    (s : Bytes) (room : ℕ) (b : Buffer) (rest : Bytes)
    → IsValid b
    → IsText s
    → length s < room
    → contents b ≡ s ++ 0 ∷ rest
    → (b' : Buffer) × (get_string room b ≡ some (s, b')) × Taken b rest b'
unfolding get_string
get_string-Taken s zero b rest v t h e = absurd (omega arith)
get_string-Taken [] (suc room) b rest v t h e =
    let (byte, taken) = skip-Taken b 0 rest v e in (skip b, ground (arith, byte), taken)
get_string-Taken (c ∷ s) (suc room) b rest v t h e =
    let (byte, taken) = skip-Taken b c (s ++ 0 ∷ rest) v e in
    let (b', read, later) =
      get_string-Taken s room (skip b) rest taken.valid t.1 (omega arith) taken.remaining in
    (
      b',
      ground (arith, byte, read, t.0),
      record {
        valid = later.valid;
        same_size = later.same_size ∙ taken.same_size;
        remaining = later.remaining;
      },
    )
