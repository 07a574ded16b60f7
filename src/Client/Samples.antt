-- ===== src/Client/Samples.antt =====
-- A tokenizer and a table that behave as documented.
use mathlib.Core.List.{Memᴰ}
use seamlessrdp.Base.{
  ℕ, ◌≡◌, ◌≢◌, refl, sym, ap, ◌∙◌, true, false, inl, inr, List, [], ◌∷◌, ◌++◌, append-nil,
  append_assoc, Option, none, some, Bytes, All, arith, ◌==◌, if◌then◌else◌, Bool-cases,
}
use seamlessrdp.Shell.Command.{equal}
use seamlessrdp.Shell.Command.Equal.{equal-true, equal_self, equal-ne}
use seamlessrdp.Client.{Tokenizer, HashTable, Maps}
use seamlessrdp.Client.Parse.Fields.{delimited, Splits}

abbrev finished : Bytes → List Bytes → List Bytes
finished [] rest = rest
finished (c ∷ s) rest = (c ∷ s) ∷ rest

-- `begun` is the token so far
abbrev strtok_from : ℕ → Bytes → Bytes → List Bytes
strtok_from d begun [] = finished begun []
strtok_from d begun (c ∷ s) =
    if c == d then finished begun (strtok_from d [] s) else strtok_from d (begun ++ c ∷ []) s

abbrev pub strtok : Tokenizer
strtok d s = strtok_from d [] s

strtok_from-one :
    (d : ℕ) (begun f rest : Bytes)
    → All (λ c. c ≢ d) f
    → strtok_from d begun (f ++ rest) ≡ strtok_from d (begun ++ f) rest
strtok_from-one d begun [] rest h = rw append-nil refl
strtok_from-one d begun (c ∷ f) rest h =
    let differs : (c == d) ≡ false = ground (arith, h.0) in
    rw differs (strtok_from-one d (begun ++ c ∷ []) f rest h.1 ∙ rw append_assoc refl)

finished-some : (s : Bytes) (rest : List Bytes) → s ≢ [] → finished s rest ≡ s ∷ rest
finished-some [] rest h = absurd (h refl)
finished-some (c ∷ s) rest h = refl

pub strtok-Splits : Splits strtok
strtok-Splits d f [] h hs =
    ap (strtok_from d []) (sym (append-nil f))
    ∙ strtok_from-one d [] f [] h.one
    ∙ finished-some f [] h.some_bytes
strtok-Splits d f (g ∷ fs) h hs =
    let same : (d == d) ≡ true = ground arith in
    strtok_from-one d [] f (d ∷ delimited d g fs) h.one
    ∙ rw same (finished-some f _ h.some_bytes)
    ∙ ap (◌∷◌ f) (strtok-Splits d g fs hs.0 hs.1)

abbrev Pairs : Type 0
Pairs = List (Bytes × ℕ)

abbrev find : Bytes → Pairs → Option ℕ
find k [] = none
find k ((j, p) ∷ s) = if equal k j then some p else find k s

abbrev remove : Bytes → Pairs → Pairs
remove k [] = []
remove k ((j, p) ∷ s) = if equal k j then remove k s else (j, p) ∷ remove k s

-- the first pair of each key
abbrev firsts : Pairs → Pairs
firsts [] = []
firsts ((k, p) ∷ s) = (k, p) ∷ remove k (firsts s)

abbrev pub pairs : HashTable
pairs = record {
  State = Pairs;
  construct = [];
  insert = λ k p s. (k, p) ∷ s;
  lookup = find;
  del = λ k s. (find k s, remove k s);
  entries = firsts;
}

find-remove_same : (k : Bytes) (s : Pairs) → find k (remove k s) ≡ none
find-remove_same k [] = refl
find-remove_same k ((j, p) ∷ s) = elim (Bool-cases (equal k j)) [
  | inl same ↦ rw same (find-remove_same k s)
  | inr differs ↦ rw (differs, differs) (find-remove_same k s)
]

find-remove_other : (k j : Bytes) (s : Pairs) → j ≢ k → find j (remove k s) ≡ find j s
find-remove_other k j [] ne = refl
find-remove_other k j ((i, p) ∷ s) ne = elim (Bool-cases (equal k i)) [
  | inl same ↦
      let e = equal-true k i same in
      let differs : equal j i ≡ false = equal-ne j i (λ f. ne (cc (e, f))) in
      rw (same, differs) (find-remove_other k j s ne)
  | inr other ↦ rw (other, find-remove_other k j s ne) refl
]

Memᴰ-kept :
    (k j i : Bytes) (p q : ℕ) (s : Pairs)
    → equal k i ≡ false
    → (Memᴰ (j, p) (remove k s) → (j ≢ k) × Memᴰ (j, p) s)
    → Memᴰ (j, p) ((i, q) ∷ remove k s)
    → (j ≢ k) × Memᴰ (j, p) ((i, q) ∷ s)
Memᴰ-kept k j i p q s differs ih (Memᴰ.head e) =
    (λ same. cc (e, same, differs, equal_self k), Memᴰ.head e)
Memᴰ-kept k j i p q s differs ih (Memᴰ.tail m) = ((ih m).0, Memᴰ.tail (ih m).1)

Memᴰ-remove : (k j : Bytes) (p : ℕ) (s : Pairs) → Memᴰ (j, p) (remove k s) → (j ≢ k) × Memᴰ (j, p) s
Memᴰ-remove k j p [] m = elim m [ ]
Memᴰ-remove k j p ((i, q) ∷ s) m = elim (Bool-cases (equal k i)) [
  | inl same ↦ let (ne, there) = Memᴰ-remove k j p s (rw same at m) in (ne, Memᴰ.tail there)
  | inr differs ↦ Memᴰ-kept k j i p q s differs (Memᴰ-remove k j p s) (rw differs at m)
]

remove-Memᴰ : (k j : Bytes) (p : ℕ) (s : Pairs) → j ≢ k → Memᴰ (j, p) s → Memᴰ (j, p) (remove k s)
remove-Memᴰ k j p [] ne m = elim m [ ]
remove-Memᴰ k j p ((i, q) ∷ s) ne (Memᴰ.head e) =
    let differs : equal k i ≡ false = equal-ne k i (λ same. ne (cc (same, e))) in
    rw differs (Memᴰ.head e)
remove-Memᴰ k j p ((i, q) ∷ s) ne (Memᴰ.tail m) = elim (Bool-cases (equal k i)) [
  | inl same ↦ rw same (remove-Memᴰ k j p s ne m)
  | inr differs ↦ rw differs (Memᴰ.tail (remove-Memᴰ k j p s ne m))
]

find-visited : (k : Bytes) (p : ℕ) (s : Pairs) → Memᴰ (k, p) (firsts s) → find k s ≡ some p
find-visited k p [] m = elim m [ ]
find-visited k p ((j, q) ∷ s) (Memᴰ.head e) =
    let same : equal k j ≡ true = cc (e, equal_self k) in rw same (cc e)
find-visited k p ((j, q) ∷ s) (Memᴰ.tail m) =
    let (ne, there) = Memᴰ-remove j k p (firsts s) m in
    rw (equal-ne k j ne) (find-visited k p s there)

find-visits : (k : Bytes) (p : ℕ) (s : Pairs) → find k s ≡ some p → Memᴰ (k, p) (firsts s)
find-visits k p [] h = cc
find-visits k p ((j, q) ∷ s) h = elim (Bool-cases (equal k j)) [
  | inl same ↦
      let e = equal-true k j same in
      let value : some q ≡ some p = rw same at h in Memᴰ.head (cc (e, value))
  | inr differs ↦
      let there : find k s ≡ some p = rw differs at h in
      let ne : k ≢ j = λ e. cc (e, differs, equal_self k) in
      Memᴰ.tail (remove-Memᴰ j k p (firsts s) ne (find-visits k p s there))
]

pub pairs-Maps : Maps pairs
pairs-Maps = record {
  constructed = λ k. refl;
  insert_same = λ k p s. rw (equal_self k) refl;
  insert_other = λ k j p s ne. rw (equal-ne j k ne) refl;
  del_found = λ k s. refl;
  del_same = find-remove_same;
  del_other = find-remove_other;
  visited = find-visited;
  visits = find-visits;
}
