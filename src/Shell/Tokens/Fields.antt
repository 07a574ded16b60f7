-- ===== src/Shell/Tokens/Fields.antt =====
-- The tokens of a line are its fields.
use Prim.Native.Nat.add
use seamlessrdp.Base.{
  ℕ, zero, suc, ◌+◌, ◌≡◌, ◌≢◌, refl, List, [], ◌∷◌, ◌++◌, append-nil, none, some, Bytes, All, arith,
  length, replicate, map,
}
use seamlessrdp.Shell.Tokens.{split_comma, get_token, get_tokens}

-- A field holds no comma.
abbrev pub IsField : Bytes → Type 0
IsField s = All (λ c. c ≢ b',') s

-- fields with a comma between each and the next
abbrev pub join : Bytes → List Bytes → Bytes
join f [] = f
join f (g ∷ fs) = f ++ b',' ∷ join g fs

split_comma-last : (f : Bytes) → IsField f → split_comma f ≡ none
unfolding split_comma
split_comma-last [] h = refl
split_comma-last (c ∷ f) h = ground (arith, split_comma-last f h.1, h.0)

split_comma-first : (f rest : Bytes) → IsField f → split_comma (f ++ b',' ∷ rest) ≡ some (f, rest)
unfolding split_comma
split_comma-first [] rest h = refl
split_comma-first (c ∷ f) rest h = ground (arith, split_comma-first f rest h.1, h.0)

get_token-last : (f : Bytes) → IsField f → get_token (some f) ≡ (some f, none)
unfolding get_token
get_token-last f h = rw (get_token, split_comma-last f h) refl

get_token-first :
    (f rest : Bytes) → IsField f → get_token (some (f ++ b',' ∷ rest)) ≡ (some f, some rest)
unfolding get_token
get_token-first f rest h = rw (get_token, split_comma-first f rest h) refl

get_tokens-none : (n : ℕ) → get_tokens n none ≡ (replicate n none, none)
unfolding get_tokens get_token
get_tokens-none zero = refl
get_tokens-none (suc n) = rw (get_tokens-none n) refl

get_tokens-first :
    (n : ℕ) (f rest : Bytes)
    → IsField f
    → get_tokens (suc n) (some (f ++ b',' ∷ rest))
      ≡ (some f ∷ (get_tokens n (some rest)).0, (get_tokens n (some rest)).1)
unfolding get_tokens
get_tokens-first n f rest h = rw (get_tokens, get_token-first f rest h) refl

-- Where there are calls enough for the fields, each field is a token, in order; the tokens behind them
-- are NULL, and so is the pointer afterwards.
pub get_tokens-join :
    (f : Bytes) (fs : List Bytes) (n : ℕ)
    → IsField f
    → All IsField fs
    → get_tokens (suc (length fs + n)) (some (join f fs))
      ≡ (some f ∷ map some fs ++ replicate n none, none)
get_tokens-join f [] n h hs =
    rw (add.zero) (unfold get_tokens in rw (get_tokens, get_token-last f h, get_tokens-none n) refl)
get_tokens-join f (g ∷ fs) n h hs =
    rw
      (
        get_tokens-first (length (g ∷ fs) + n) f (join g fs) h,
        add.suc,
        get_tokens-join g fs n hs.0 hs.1,
      )
      refl

-- With more fields than calls, the pointer stands at the first field that was not read.
pub get_tokens-left :
    (f : Bytes) (fs : List Bytes) (g : Bytes) (gs : List Bytes)
    → IsField f
    → All IsField fs
    → (get_tokens (suc (length fs)) (some (join f (fs ++ g ∷ gs)))).1 ≡ some (join g gs)
get_tokens-left f [] g gs h hs = rw (get_tokens-first 0 f (join g gs) h) (unfold get_tokens in refl)
get_tokens-left f (e ∷ fs) g gs h hs =
    rw (get_tokens-first (length (e ∷ fs)) f (join e (fs ++ g ∷ gs)) h)
      (get_tokens-left e fs g gs hs.0 hs.1)

-- as many calls as fields
pub get_tokens-all :
    (f : Bytes) (fs : List Bytes)
    → IsField f
    → All IsField fs
    → get_tokens (suc (length fs)) (some (join f fs)) ≡ (some f ∷ map some fs, none)
get_tokens-all f fs h hs =
    let same : length fs + 0 ≡ length fs = omega arith in
    rw (same, append-nil) at (get_tokens-join f fs 0 h hs)
