-- ===== src/Builder/Mounted.antt =====
-- The options of a mount command once they are joined by commas (genMountOpts of
-- pkg/builder/cache_group_pod.go, parseOptions of pkg/utils/options.go).
use juicefs_operator.Base.{
  ℕ, ◌≡◌, refl, false, Option, none, some, List, [], ◌∷◌, ◌++◌, arith, if_ind, All, All-append, ◌∙◌,
}
use juicefs_operator.Base.Text.{Text, codes, text_eq, cut, split, join, has_prefix, trim_space}
use juicefs_operator.Base.Trim.{trim_space-free}
use juicefs_operator.Base.Split.{IsFree, AreFree, has_char-append, split-join-snoc, cut-AreFree}
use juicefs_operator.Builder.{
  parse_pair, parse_options, text_contains, written, add_options, base_options, gen_mount_opts,
}
use juicefs_operator.Builder.Options.{add_options-parse_options}

-- A name and a value without a comma.
abbrev pub PairIsFree : Text × Text → Type 0
PairIsFree o = IsFree b',' o.0 × IsFree b',' o.1

pub append-IsFree : (c : ℕ) (s t : Text) → IsFree c s → IsFree c t → IsFree c (s ++ t)
append-IsFree c s t h k = has_char-append c s t ∙ ground (arith, h, k)

parse_pair-AreFree :
    (t : Text) (o : Option (Text × Text))
    → IsFree b',' t
    → AreFree b',' o
    → AreFree b',' (parse_pair t o)
unfolding parse_pair
parse_pair-AreFree t none h k =
    if_ind (AreFree b',') (text_eq (trim_space t) []) (λ _. tt)
      (λ _. (trim_space-free b',' t h, refl))
parse_pair-AreFree t (some (a, b)) h (ka, kb) =
    if_ind (AreFree b',') (text_eq b []) (λ _. tt)
      (λ _.
        if_ind (AreFree b',') (text_eq (trim_space a) []) (λ _. tt)
          (λ _. (trim_space-free b',' a ka, trim_space-free b',' b kb)))

parsed_cons-free :
    (p : Option (Text × Text)) (rest : List (Text × Text))
    → AreFree b',' p
    → All PairIsFree rest
    → All PairIsFree (elim p [ none ↦ rest | some q ↦ q ∷ rest ])
parsed_cons-free none rest n h = h
parsed_cons-free (some (a, b)) rest n h = (n, h)

-- Options without a comma are read as names and values without one.
pub parse_options-free : (os : List Text) → All (IsFree b',') os → All PairIsFree (parse_options os)
unfolding parse_options
parse_options-free [] h = tt
parse_options-free (o ∷ os) (h, hs) =
    let t = trim_space o in
    let free = trim_space-free b',' o h in
    parsed_cons-free (parse_pair t (cut b'=' t)) (parse_options os)
      (parse_pair-AreFree t (cut b'=' t) free (cut-AreFree b',' b'=' t free))
      (parse_options-free os hs)

written-IsFree : (o : Text × Text) → PairIsFree o → IsFree b',' (written o)
written-IsFree (k, v) (hk, hv) =
    if_ind (IsFree b',') (text_eq v []) (λ _. trim_space-free b',' k hk)
      (λ _.
        append-IsFree b',' (trim_space k) (b'=' ∷ trim_space v) (trim_space-free b',' k hk)
          (trim_space-free b',' v hv))

add_options-IsFree :
    (opts : List Text) (os : List (Text × Text))
    → All (IsFree b',') opts
    → All PairIsFree os
    → All (IsFree b',') (add_options opts os)
unfolding add_options
add_options-IsFree opts [] h n = h
add_options-IsFree opts (o ∷ os) h (n, ns) =
    if_ind (All (IsFree b',')) (text_eq o.0 (codes "cache-dir"))
      (λ _. add_options-IsFree opts os h ns)
      (λ _.
        if_ind (All (IsFree b',')) (text_contains opts o.1) (λ _. add_options-IsFree opts os h ns)
          (λ _.
            add_options-IsFree (opts ++ written o ∷ []) os
              (All-append (IsFree b',') opts (written o ∷ []) h (written-IsFree o n, tt)) ns))

-- Where the name of the cache group, the options that the user gives and the cache directories have no
-- comma, the text of the mount options, split at its commas, ends with the directories that the
-- operator sets, and no option before them sets `cache-dir`.
pub gen_mount_opts-cache_dir :
    (cache_group : Text) (opts cache_dirs : List Text)
    → IsFree b',' cache_group
    → All (IsFree b',') opts
    → IsFree b',' (join b':' cache_dirs)
    → (before : List Text) × (split b',' (gen_mount_opts cache_group opts cache_dirs)
        ≡ before ++ (codes "cache-dir=" ++ join b':' cache_dirs) ∷ [])
      × All (λ o. has_prefix (codes "cache-dir=") o ≡ false) before
unfolding gen_mount_opts
gen_mount_opts-cache_dir cache_group opts cache_dirs hg ho hd =
    let before = add_options (base_options cache_group) (parse_options opts) in
    (
      before,
      split-join-snoc b',' before (codes "cache-dir=" ++ join b':' cache_dirs)
          (add_options-IsFree (base_options cache_group) (parse_options opts)
            (refl, (refl, (append-IsFree b',' (codes "cache-group=") cache_group refl hg, tt)))
            (parse_options-free opts ho))
          (append-IsFree b',' (codes "cache-dir=") (join b':' cache_dirs) refl hd),
      add_options-parse_options cache_group opts,
    )
