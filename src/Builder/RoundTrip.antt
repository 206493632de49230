-- ===== src/Builder/RoundTrip.antt =====
-- Writing parsed options back (ParseOptions, genMountOpts) and parsing them again.
use juicefs_operator.Base.{
  ℕ, ◌≡◌, refl, sym, ap, ◌∙◌, subst, true, false, Option, none, some, [], ◌∷◌, ◌++◌, arith,
  Bool-cases, inl, inr, if_ind, List, map, All, Option-cases,
}
use juicefs_operator.Base.Text.{
  Text, text_eq, text_eq_iff, cut, trim_left, trim_right, trim_cons, trim_space,
}
use juicefs_operator.Base.Trim.{
  has_char, starts_well, trim_left-starts, trim_left_fix, trim_right-starts, trim_right_twice,
  trim_space_twice, trim_space-free, cut-none-free, front, cut-free,
}
use juicefs_operator.Builder.{parse_pair, written, parse_options}

-- The first separator of a text is the one after a part without it.
pub cut-append : (c : ℕ) (k v : Text) → has_char c k ≡ false → cut c (k ++ c ∷ v) ≡ some (k, v)
unfolding cut
cut-append c [] v h = ground arith
cut-append c (x ∷ k) v h = ground (arith, cut-append c k v)

pub cut-free_text : (c : ℕ) (k : Text) → has_char c k ≡ false → cut c k ≡ none
unfolding cut
cut-free_text c [] h = refl
cut-free_text c (x ∷ k) h = ground (arith, cut-free_text c k)

-- A text that is trimmed on the right stays so behind other characters.
trim_right-append :
    (k v : Text) → text_eq v [] ≡ false → trim_right v ≡ v → trim_right (k ++ v) ≡ k ++ v
unfolding trim_right
trim_right-append [] v n h = h
trim_right-append (x ∷ []) [] n h = absurd (ground (arith, text_eq_iff [] []))
trim_right-append (x ∷ []) (y ∷ v) n h = ap (trim_cons x) h
trim_right-append (x ∷ z ∷ k) v n h = ap (trim_cons x) (trim_right-append (z ∷ k) v n h)

-- An option as ParseOptions gives it.
record IsOption (o : Text × Text) : Type 0 where
  name_trimmed : trim_space o.0 ≡ o.0
  named : text_eq o.0 [] ≡ false
  no_equals : has_char b'=' o.0 ≡ false
  value_trimmed : trim_space o.1 ≡ o.1

trim_space-starts : (s : Text) → starts_well (trim_space s) ≡ true
unfolding trim_space
trim_space-starts s = trim_right-starts (trim_left s) (trim_left-starts s)

trim_space-right : (s : Text) → trim_right (trim_space s) ≡ trim_space s
unfolding trim_space
trim_space-right s = trim_right_twice (trim_left s)

starts_well-append :
    (k v : Text) → text_eq k [] ≡ false → starts_well k ≡ true → starts_well (k ++ v) ≡ true
starts_well-append [] v n h = absurd (ground (arith, text_eq_iff [] []))
starts_well-append (x ∷ k) v n h = h

-- A trimmed name, `=` and a trimmed value that is not empty.
trim_space-pair :
    (k v : Text)
    → text_eq k [] ≡ false
    → text_eq v [] ≡ false
    → trim_space k ≡ k
    → trim_space v ≡ v
    → trim_space (k ++ b'=' ∷ v) ≡ k ++ b'=' ∷ v
unfolding trim_space text_eq
trim_space-pair k v n m h l =
    let start : starts_well k ≡ true = subst (λ t. starts_well t ≡ true) h (trim_space-starts k) in
    let ends : trim_right v ≡ v = ap trim_right (sym l) ∙ trim_space-right v ∙ l in
    ap trim_right (trim_left_fix (k ++ b'=' ∷ v) (starts_well-append k (b'=' ∷ v) n start))
    ∙ trim_right-append k (b'=' ∷ v) refl (trim_right-append (b'=' ∷ []) v m ends)

abbrev reparsed : Text → Option (Text × Text)
reparsed s = parse_pair (trim_space s) (cut b'=' (trim_space s))

-- A trimmed text is parsed as it is cut.
reparsed_as :
    (s t : Text) (c : Option (Text × Text))
    → s ≡ t
    → trim_space t ≡ t
    → cut b'=' t ≡ c
    → reparsed s ≡ parse_pair t c
reparsed_as s t c e f g =
    ap reparsed e ∙ ap (λ u. parse_pair u (cut b'=' u)) f ∙ ap (parse_pair t) g

named_trimmed : (o : Text × Text) → IsOption o → text_eq (trim_space o.0) [] ≡ false
named_trimmed o h = subst (λ t. text_eq t [] ≡ false) (sym h.name_trimmed) h.named

parse_pair_flag :
    (k : Text) → text_eq (trim_space k) [] ≡ false → parse_pair k none ≡ some (trim_space k, [])
unfolding parse_pair
parse_pair_flag k n = ground arith

parse_pair_value :
    (s k v : Text)
    → text_eq v [] ≡ false
    → text_eq (trim_space k) [] ≡ false
    → parse_pair s (some (k, v)) ≡ some (trim_space k, trim_space v)
unfolding parse_pair
parse_pair_value s k v m n = ground arith

reparsed-written : (o : Text × Text) → IsOption o → reparsed (written o) ≡ some o
reparsed-written (k, v) h = elim (Bool-cases (text_eq v [])) [
  | inl e ↦
      reparsed_as (written (k, v)) k none (ground (arith, h.name_trimmed)) h.name_trimmed
        (cut-free_text b'=' k h.no_equals)
      ∙ parse_pair_flag k (named_trimmed (k, v) h)
      ∙ cc (h.name_trimmed, (text_eq_iff v []).0 e)
  | inr e ↦
      reparsed_as (written (k, v)) (k ++ b'=' ∷ v) (some (k, v))
        (cc (e, h.name_trimmed, h.value_trimmed))
        (trim_space-pair k v h.named e h.name_trimmed h.value_trimmed)
        (cut-append b'=' k v h.no_equals)
      ∙ parse_pair_value (k ++ b'=' ∷ v) k v e (named_trimmed (k, v) h)
      ∙ cc (h.name_trimmed, h.value_trimmed)
]

abbrev Parsed : Option (Text × Text) → Type 0
Parsed none = Unit
Parsed (some o) = IsOption o

parse_pair-Parsed : (t : Text) (o : Option (Text × Text)) → cut b'=' t ≡ o → Parsed (parse_pair t o)
unfolding parse_pair trim_space
parse_pair-Parsed t none e =
    if_ind Parsed (text_eq (trim_space t) []) (λ _. tt)
      (λ n. record {
        name_trimmed = trim_space_twice t;
        named = n;
        no_equals = trim_space-free b'=' t (cut-none-free b'=' t e);
        value_trimmed = refl;
      })
parse_pair-Parsed t (some (k, v)) e =
    if_ind Parsed (text_eq v []) (λ _. tt)
      (λ _.
        if_ind Parsed (text_eq (trim_space k) []) (λ _. tt)
          (λ n. record {
            name_trimmed = trim_space_twice k;
            named = n;
            no_equals =
                trim_space-free b'=' k
                  (subst (λ o. has_char b'=' (front o) ≡ false) e (cut-free b'=' t));
            value_trimmed = trim_space_twice v;
          }))

abbrev cons_parsed : Option (Text × Text) → List (Text × Text) → List (Text × Text)
cons_parsed none rest = rest
cons_parsed (some o) rest = o ∷ rest

parse_options_cons :
    (o : Text) (os : List Text)
    → parse_options (o ∷ os) ≡ cons_parsed (reparsed o) (parse_options os)
unfolding parse_options
parse_options_cons o os = elim (Option-cases (reparsed o)) [
  | inl e ↦ ground arith
  | inr (p, e) ↦ ground arith
]

cons_parsed-All :
    (o : Option (Text × Text)) (rest : List (Text × Text))
    → Parsed o
    → All IsOption rest
    → All IsOption (cons_parsed o rest)
cons_parsed-All none rest h k = k
cons_parsed-All (some o) rest h k = (h, k)

parse_options-All : (os : List Text) → All IsOption (parse_options os)
unfolding parse_options
parse_options-All [] = tt
parse_options-All (o ∷ os) = subst (All IsOption) (sym (parse_options_cons o os)) (
    cons_parsed-All (reparsed o) (parse_options os)
      (parse_pair-Parsed (trim_space o) (cut b'=' (trim_space o)) refl) (parse_options-All os))

parse_options-map :
    (ps : List (Text × Text)) → All IsOption ps → parse_options (map written ps) ≡ ps
unfolding parse_options
parse_options-map [] h = refl
parse_options-map (p ∷ ps) (h, hs) =
    parse_options_cons (written p) (map written ps)
    ∙ ap (λ o. cons_parsed o (parse_options (map written ps))) (reparsed-written p h)
    ∙ ap (λ l. p ∷ l) (parse_options-map ps hs)

-- Parsing any options, writing each of the results the way the mount command has it and parsing again
-- gives the same names and values.
pub parse_options-written :
    (os : List Text) → parse_options (map written (parse_options os)) ≡ parse_options os
parse_options-written os = parse_options-map (parse_options os) (parse_options-All os)
