-- ===== src/Builder/Worker/MapOrder.antt =====
-- The environment of a worker (genEnvs of pkg/builder/cache_group_pod.go) against the order in which Go
-- ranges over the map of the secret's variables.
use mathlib.Core.List.{Permᴰ}
use juicefs_operator.Base.{
  bind_ind2, true, false, ◌&&◌, List, [], ◌∷◌, ◌++◌, ◌≡◌, refl, arith, All-map, Pairwise, map,
  Option, some, none, lookup, Bool, ap,
}
use juicefs_operator.Base.Text.{Text, text_eq, codes}
use juicefs_operator.Base.Sort.{sort_by}
use juicefs_operator.Base.Sort.Orders.{sort_by-perm}
use juicefs_operator.Builder.Configs.{text_before}
use juicefs_operator.Labels.{truncate_label_value}
use juicefs_operator.Builder.Worker.{
  Outside, new_worker, finished, hashed, hashed_v2, mount_opts_of, assemble,
}
use juicefs_operator.Builder.Worker.Parts.{
  PodBuilder, Gathered, gen_volumes, gen_envs, secret_envs, stripped_envs, EnvVar, env_before,
  plain_env, gen_envs, secret_envs, PodBuilder, stripped_envs,
}

text_before_total : (s t : Text) → text_before s t ≡ false → text_before t s ≡ true
unfolding text_before
text_before_total [] t h = cc
text_before_total (c ∷ s) [] h = refl
text_before_total (c ∷ s) (d ∷ t) h = ground (arith, text_before_total s t)

text_before_trans :
    (s t u : Text) → text_before s t ≡ true → text_before t u ≡ true → text_before s u ≡ true
unfolding text_before
text_before_trans [] t u h k = refl
text_before_trans (c ∷ s) [] u h k = cc
text_before_trans (c ∷ s) (d ∷ t) [] h k = cc
text_before_trans (c ∷ s) (d ∷ t) (e ∷ u) h k = ground (arith, text_before_trans s t u)

text_before_apart :
    (s t : Text) → text_eq s t ≡ false → (text_before s t && text_before t s) ≡ false
unfolding text_before text_eq
text_before_apart [] [] h = cc
text_before_apart [] (d ∷ t) h = refl
text_before_apart (c ∷ s) [] h = refl
text_before_apart (c ∷ s) (d ∷ t) h = ground (arith, text_before_apart s t)

-- Two entries of a map: their keys differ.
abbrev pub Differ : Text × Text → Text × Text → Type 0
Differ a b = text_eq a.0 b.0 ≡ false

apart_all :
    (W : Type 0) (kvs : List (Text × Text))
    → Pairwise Differ kvs
    → Pairwise
        (λ (a b : Text × Text).
          (env_before {V = W} (plain_env a) (plain_env b)
            && env_before {V = W} (plain_env b) (plain_env a))
          ≡ false)
        kvs
apart_all W [] h = tt
apart_all W (kv ∷ kvs) (h, hs) =
    (All-map (λ (x : Text × Text). text_before_apart kv.0 x.0) kvs h, apart_all W kvs hs)

module _ {V : Type 0} where
  envs-perm :
      (kvs kvs' : List (Text × Text)) (rest : List (EnvVar V))
      → Permᴰ kvs kvs'
      → Pairwise Differ kvs
      → sort_by (env_before {V = V}) (map plain_env kvs ++ rest)
        ≡ sort_by (env_before {V = V}) (map plain_env kvs' ++ rest)
  envs-perm kvs kvs' rest p h =
      sort_by-perm (env_before {V = V}) (λ (a b : EnvVar V). text_before_total a.name b.name)
        (λ (a b c : EnvVar V). text_before_trans a.name b.name c.name) plain_env rest p
        (apart_all V kvs h)

  -- The variables of a secret whose text the parser reads as `kvs`.
  abbrev pub reading : List (Text × Text) → Outside V → Outside V
  reading kvs o = record o { parse_envs = λ _. some kvs }

  module _ (kvs kvs' : List (Text × Text)) (perm : Permᴰ kvs kvs')
      (distinct : Pairwise Differ kvs) where
    pub secret_envs-perm :
        (envs : Option Text) (rest : List (EnvVar V))
        → sort_by (env_before {V = V}) (secret_envs (λ _. some kvs) envs ++ rest)
          ≡ sort_by (env_before {V = V}) (secret_envs (λ _. some kvs') envs ++ rest)
    unfolding secret_envs
    secret_envs-perm none rest = refl
    secret_envs-perm (some []) rest = refl
    secret_envs-perm (some (c ∷ s)) rest = envs-perm kvs kvs' rest perm distinct

    gen_envs-perm : (p : PodBuilder V) → gen_envs (λ _. some kvs) p ≡ gen_envs (λ _. some kvs') p
    unfolding gen_envs
    gen_envs-perm p =
        secret_envs-perm (lookup "envs" p.secret) (stripped_envs p.secret_ref ++ p.spec.env)

    assemble-perm :
        (o : Outside V) (p : PodBuilder V) (dryrun v2 : Bool) (label : Text) (parts : Gathered V)
        → assemble (reading kvs o) p dryrun v2 label parts
          ≡ assemble (reading kvs' o) p dryrun v2 label parts
    unfolding assemble finished hashed hashed_v2
    assemble-perm o p dryrun true label parts =
        ap
          (λ env.
            finished o p (some (mount_opts_of p parts))
              (record (hashed_v2 (reading kvs o) p dryrun label parts) { env = env }))
          (gen_envs-perm p)
    assemble-perm o p dryrun false label parts =
        ap
          (λ env.
            finished o p none (record (hashed (reading kvs o) p dryrun label parts) { env = env }))
          (gen_envs-perm p)

    -- The worker that is built, its hash included, is the same for every order in which Go ranges over
    -- the map of the secret's variables, whose keys differ.
    pub new_worker-perm :
        (o : Outside V) (p : PodBuilder V) (dryrun v2 : Bool)
        → new_worker (reading kvs o) p dryrun v2 ≡ new_worker (reading kvs' o) p dryrun v2
    unfolding new_worker
    new_worker-perm o p dryrun v2 =
        bind_ind2 ◌≡◌ (truncate_label_value o.cal_md5 (codes p.cg.name)) _ _ refl (λ label _.
          bind_ind2 ◌≡◌ (gen_volumes o.show o.parse_configs p) _ _ refl
            (λ parts _. ap some (assemble-perm o p dryrun v2 label parts)))
