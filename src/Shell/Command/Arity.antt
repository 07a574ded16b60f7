-- ===== src/Shell/Command/Arity.antt =====
-- Which lines `process_cmds` can handle, and what it frees behind them.
use seamlessrdp.Base.{
  ℕ, zero, suc, ◌+◌, ◌-◌, ◌≤◌, ◌<◌, ◌≡◌, ◌≢◌, ◌↔◌, refl, sym, ◌∙◌, List, [], ◌∷◌, ◌++◌, map, Option,
  none, some, Bytes, IsText, All, All-append, codes, arith, if◌then◌else◌, length, get_or,
  replicate, Option-cases, inl, inr,
}
use seamlessrdp.Shell.Escape.Percent.{Encodes, unescape-Encodes}
use seamlessrdp.Shell.Tokens.{get_tokens}
use seamlessrdp.Shell.Tokens.Fields.{IsField, join, get_tokens-join, get_tokens-left}
use seamlessrdp.Shell.Command.{
  Call, done, crashed, overrun, equal, dispatch, c_string, handle_tokens, handle_line,
}

-- how many fields behind its name a command needs
abbrev pub arity : Bytes → ℕ
arity name =
    if equal name (codes "SYNC")
    then 0
    else if equal name (codes "STATE")
    then 3
    else if equal name (codes "POSITION")
    then 6
    else if equal name (codes "ZCHANGE")
    then 3
    else if equal name (codes "FOCUS")
    then 2
    else if equal name (codes "DESTROY")
    then 2
    else if equal name (codes "SPAWN")
    then 2
    else if equal name (codes "PERSISTENT")
    then 2
    else 0

get_or-replicate : (n i : ℕ) → get_or (replicate {A = Option Bytes} n none) i none ≡ none
get_or-replicate zero i = refl
get_or-replicate (suc n) zero = refl
get_or-replicate (suc n) (suc i) = get_or-replicate n i

dispatch-none_iff :
    (name : Bytes) (args : List Bytes) (n : ℕ)
    → (dispatch name (map some args ++ replicate n none) ≡ none) ↔ (length args < arity name)
unfolding dispatch
dispatch-none_iff name [] n = ground (arith, get_or-replicate n 0, get_or-replicate n 1)
dispatch-none_iff name (a ∷ []) n = ground (arith, get_or-replicate n 0, get_or-replicate n 1)
dispatch-none_iff name (a ∷ b ∷ []) n = ground (arith, get_or-replicate n 0)
dispatch-none_iff name (a ∷ b ∷ c ∷ []) n = ground (arith, get_or-replicate n 0)
dispatch-none_iff name (a ∷ b ∷ c ∷ d ∷ []) n = ground (arith, get_or-replicate n 0)
dispatch-none_iff name (a ∷ b ∷ c ∷ d ∷ e ∷ []) n = ground (arith, get_or-replicate n 0)
dispatch-none_iff name (a ∷ b ∷ c ∷ d ∷ e ∷ f ∷ rest) n = ground arith

c_string_id : (s : Bytes) → IsText s → c_string s ≡ s
unfolding c_string
c_string_id [] t = refl
c_string_id (c ∷ s) t = ground (arith, c_string_id s t.1, t.0)

join-IsText : (f : Bytes) (fs : List Bytes) → IsText f → All IsText fs → IsText (join f fs)
join-IsText f [] t ts = t
join-IsText f (g ∷ fs) t ts =
    All-append (λ c. c ≢ 0) f (b',' ∷ join g fs) t ((omega arith), join-IsText g fs ts.0 ts.1)

-- The text of a line: percent-encoded fields, none of which holds a comma or a NUL.
pub record IsLineOf (line name : Bytes) (args : List Bytes) : Type 0 where
  pub encodes : Encodes line (join name args)
  pub name_text : IsText name
  pub args_text : All IsText args
  pub name_field : IsField name
  pub args_field : All IsField args

handle_line-tokens :
    (line name : Bytes) (args : List Bytes)
    → IsLineOf line name args
    → handle_line line ≡ handle_tokens (get_tokens 8 (some (join name args)))
unfolding handle_line
handle_line-tokens line name args l =
    rw
      (
        handle_line,
        unescape-Encodes l.encodes,
        c_string_id (join name args) (join-IsText name args l.name_text l.args_text),
      )
      refl

pub handle_line-dispatch :
    (line name : Bytes) (args : List Bytes) (n : ℕ)
    → IsLineOf line name args
    → length args + n ≡ 7
    → handle_line line ≡ elim (dispatch name (map some args ++ replicate n none)) [
      | none ↦ crashed
      | some call ↦ done call none
    ]
unfolding handle_tokens
handle_line-dispatch line name args n l e =
    let eight : suc (length args + n) ≡ 8 = omega arith in
    let toks = rw eight at (get_tokens-join name args n l.name_field l.args_field) in
    rw (handle_line-tokens line name args l, toks) refl

-- A line of a name and at most seven fields is handled without a crash exactly when it has as many
-- fields as its command reads. It is never the cause of a read past the end of `unescape`.
pub handle_line-crashed_iff :
    (line name : Bytes) (args : List Bytes)
    → IsLineOf line name args
    → length args ≤ 7
    → ((handle_line line ≡ crashed) ↔ (length args < arity name)) × (handle_line line ≢ overrun)
handle_line-crashed_iff line name args l few =
    let n = 7 - length args in
    let step = handle_line-dispatch line name args n l (omega arith) in
    let iff = dispatch-none_iff name args n in
    elim (Option-cases (dispatch name (map some args ++ replicate n none))) [
      | inl e ↦
          let result : handle_line line ≡ crashed = rw (step, e) refl in
          ((λ _. iff.0 e, λ _. result), λ h. cc)
      | inr (call, e) ↦
          let result : handle_line line ≡ done call none = rw (step, e) refl in
          ((λ h. cc, λ lt. let missing = iff.1 lt in cc), λ h. cc)
    ]

-- The pointer that is freed behind a line with at most seven fields is NULL.
handle_line-freed_null :
    (line name : Bytes) (args : List Bytes) (call : Option Call) (p : Option Bytes)
    → IsLineOf line name args
    → length args ≤ 7
    → handle_line line ≡ done call p
    → p ≡ none
handle_line-freed_null line name args call p l few e =
    let n = 7 - length args in
    let step = handle_line-dispatch line name args n l (omega arith) in
    elim (Option-cases (dispatch name (map some args ++ replicate n none))) [
      | inl d ↦ let result : handle_line line ≡ crashed = rw (step, d) refl in cc
      | inr (found, d) ↦ let result : handle_line line ≡ done found none = rw (step, d) refl in cc
    ]

handle_tokens-left :
    (toks : List (Option Bytes) × Option Bytes) (call : Option Call) (p : Option Bytes)
    → handle_tokens toks ≡ done call p
    → toks.1 ≡ p
unfolding handle_tokens
handle_tokens-left ([], q) call p e = cc
handle_tokens-left (none ∷ toks, q) call p e = cc
handle_tokens-left (some name ∷ toks, q) call p e = ground arith

-- The pointer that is freed behind a line with more fields points at the ninth token, inside the block
-- that `unescape` allocated and not at its start.
handle_line-freed_inside :
    (line name : Bytes) (fs : List Bytes) (g : Bytes) (gs : List Bytes) (call : Option Call)
    (p : Option Bytes)
    → IsLineOf line name (fs ++ g ∷ gs)
    → length fs ≡ 7
    → All IsField fs
    → handle_line line ≡ done call p
    → p ≡ some (join g gs)
handle_line-freed_inside line name fs g gs call p l seven fields e =
    let eight : suc (length fs) ≡ 8 = omega arith in
    let left = rw eight at (get_tokens-left name fs g gs l.name_field fields) in
    let step = handle_line-tokens line name (fs ++ g ∷ gs) l in
    sym (handle_tokens-left (get_tokens 8 (some (join name (fs ++ g ∷ gs)))) call p (sym step ∙ e))
    ∙ left
