-- ===== src/Shell/Tokens.antt =====
-- `get_token` of ServerExe/main.c, and the eight calls of it in `process_cmds`.
pub mod Fields
use seamlessrdp.Base.{
  ℕ, zero, suc, ◌+◌, ◌≤◌, ◌<◌, List, [], ◌∷◌, Option, none, some, Bytes, ◌==◌, if◌then◌else◌,
}

-- `strchr(head, ',')`: the text before the comma and the text behind it
unfoldable pub split_comma : Bytes → Option (Bytes × Bytes)
split_comma [] = none
split_comma (c ∷ cs) =
    if c == b','
    then some ([], cs)
    else elim (split_comma cs) [ none ↦ none | some (h, t) ↦ some (c ∷ h, t) ]

-- The token and the new `*s`; `none` is NULL.
unfoldable pub get_token : Option Bytes → Option Bytes × Option Bytes
get_token none = (none, none)
get_token (some s) = elim (split_comma s) [ none ↦ (some s, none) | some (h, t) ↦ (some h, some t) ]

-- `n` calls: the tokens, and what is left in `p`
unfoldable pub get_tokens : ℕ → Option Bytes → List (Option Bytes) × Option Bytes
get_tokens zero p = ([], p)
get_tokens (suc n) p =
    let (tok, p') = get_token p in let (toks, left) = get_tokens n p' in (tok ∷ toks, left)
