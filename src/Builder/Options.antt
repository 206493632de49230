-- ===== src/Builder/Options.antt =====
-- The mount options of a worker (genMountOpts) against the options that the user gives.
use juicefs_operator.Base.{
  ◌≢◌, ◌≡◌, refl, sym, Bool, true, false, Option, none, some, List, [], ◌∷◌, ◌++◌, arith,
  Bool-cases, inl, inr, if_ind, subst, All, All-append, subst,
}
use juicefs_operator.Base.Text.{Text, codes, text_eq, text_eq_iff, cut, has_prefix, trim_space}
use juicefs_operator.Base.Trim.{
  has_char, trim_space-free, trim_space_twice, cut-none-free, cut-free, front,
}
use juicefs_operator.Builder.{
  parse_pair, parse_options, text_contains, written, add_options, base_options,
}

-- A name without `=` that is followed by `=` is the whole name.
prefix-key :
    (p k v : Text)
    → has_char b'=' p ≡ false
    → has_char b'=' k ≡ false
    → has_prefix (p ++ b'=' ∷ []) (k ++ b'=' ∷ v) ≡ true
    → p ≡ k
unfolding has_prefix
prefix-key [] [] v h l e = refl
prefix-key [] (x ∷ k) v h l e = absurd (ground arith)
prefix-key (x ∷ p) [] v h l e = absurd (ground arith)
prefix-key (x ∷ p) (y ∷ k) v h l e =
    let r = prefix-key p k v (ground arith) (ground arith) (ground arith) in ground (arith, r)

prefix-free : (p k : Text) → has_char b'=' k ≡ false → has_prefix (p ++ b'=' ∷ []) k ≡ false
unfolding has_prefix
prefix-free [] [] h = refl
prefix-free [] (y ∷ k) h = ground arith
prefix-free (x ∷ p) [] h = refl
prefix-free (x ∷ p) (y ∷ k) h = ground (arith, prefix-free p k)

-- A name as parseOptions gives it: trimmed, without `=`.
pub record IsName (k : Text) : Type 0 where
  pub trimmed : trim_space k ≡ k
  pub free : has_char b'=' k ≡ false

abbrev Named : Option (Text × Text) → Type 0
Named none = Unit
Named (some (k, v)) = IsName k

parse_pair-Named : (t : Text) (o : Option (Text × Text)) → cut b'=' t ≡ o → Named (parse_pair t o)
unfolding parse_pair
parse_pair-Named t none e =
    if_ind Named (text_eq (trim_space t) []) (λ _. tt)
      (λ _. record {
        trimmed = trim_space_twice t;
        free = trim_space-free b'=' t (cut-none-free b'=' t e);
      })
parse_pair-Named t (some (k, v)) e =
    if_ind Named (text_eq v []) (λ _. tt)
      (λ _.
        if_ind Named (text_eq (trim_space k) []) (λ _. tt)
          (λ _. record {
            trimmed = trim_space_twice k;
            free =
                trim_space-free b'=' k
                  (subst (λ o. has_char b'=' (front o) ≡ false) e (cut-free b'=' t));
          }))

parsed_cons :
    (p : Option (Text × Text)) (rest : List (Text × Text))
    → Named p
    → All (λ (o : Text × Text). IsName o.0) rest
    → All (λ (o : Text × Text). IsName o.0) (elim p [ none ↦ rest | some q ↦ q ∷ rest ])
parsed_cons none rest n h = h
parsed_cons (some q) rest n h = (n, h)

pub parse_options-IsName :
    (os : List Text) → All (λ (o : Text × Text). IsName o.0) (parse_options os)
unfolding parse_options
parse_options-IsName [] = tt
parse_options-IsName (o ∷ os) =
    parsed_cons (parse_pair (trim_space o) (cut b'=' (trim_space o))) (parse_options os)
      (parse_pair-Named (trim_space o) (cut b'=' (trim_space o)) refl) (parse_options-IsName os)

abbrev cache_dir : Text
cache_dir = codes "cache-dir"

abbrev sets_cache_dir : Text → Bool
sets_cache_dir o = has_prefix (codes "cache-dir=") o

differs : (k : Text) → text_eq k cache_dir ≡ false → cache_dir ≢ k
differs k d e = ground (arith, d, (text_eq_iff k cache_dir).1 (sym e))

written-safe :
    (o : Text × Text)
    → IsName o.0
    → text_eq o.0 cache_dir ≡ false
    → sets_cache_dir (written o) ≡ false
written-safe (k, v) n d =
    if_ind (λ t. sets_cache_dir t ≡ false) (text_eq v [])
      (λ _. subst (λ t. sets_cache_dir t ≡ false) (sym n.trimmed) (prefix-free cache_dir k n.free))
      (λ _.
        subst (λ t. sets_cache_dir (t ++ b'=' ∷ trim_space v) ≡ false) (sym n.trimmed)
          (elim (Bool-cases (sets_cache_dir (k ++ b'=' ∷ trim_space v))) [
            | inl e ↦ absurd (differs k d (prefix-key cache_dir k (trim_space v) refl n.free e))
            | inr e ↦ e
          ]))

add_options-safe :
    (opts : List Text) (os : List (Text × Text))
    → All (λ o. sets_cache_dir o ≡ false) opts
    → All (λ (o : Text × Text). IsName o.0) os
    → All (λ o. sets_cache_dir o ≡ false) (add_options opts os)
unfolding add_options
add_options-safe opts [] h n = h
add_options-safe opts (o ∷ os) h (n, ns) =
    if_ind (All (λ t. sets_cache_dir t ≡ false)) (text_eq o.0 cache_dir)
      (λ _. add_options-safe opts os h ns)
      (λ d.
        if_ind (All (λ t. sets_cache_dir t ≡ false)) (text_contains opts o.1)
          (λ _. add_options-safe opts os h ns)
          (λ _.
            add_options-safe (opts ++ written o ∷ []) os
              (All-append (λ t. sets_cache_dir t ≡ false) opts (written o ∷ []) h
                (written-safe o n d, tt))
              ns))

-- None of the options that are written starts as a setting of `cache-dir`. One with a comma may still
-- hold such a setting.
pub add_options-parse_options :
    (cache_group : Text) (opts : List Text)
    → All
        (λ o. has_prefix (codes "cache-dir=") o ≡ false)
        (add_options (base_options cache_group) (parse_options opts))
unfolding has_prefix
add_options-parse_options cache_group opts =
    add_options-safe (base_options cache_group) (parse_options opts) (refl, (refl, (refl, tt)))
      (parse_options-IsName opts)
