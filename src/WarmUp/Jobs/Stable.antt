-- ===== src/WarmUp/Jobs/Stable.antt =====
-- The jobs of warm-ups (pkg/builder/job.go) against the order in which Go ranges over the map of the
-- secret's variables.
use mathlib.Core.List.{Permᴰ}
use juicefs_operator.Base.{some, List, ◌++◌, ◌≡◌, refl, Pairwise, lookup, Option-cases, inl, inr}
use juicefs_operator.Base.Text.{Text}
use juicefs_operator.Builder.Worker.MapOrder.{Differ, secret_envs-perm}
use juicefs_operator.Builder.Worker.Parts.{stripped_envs}
use juicefs_operator.WarmUp.Jobs.Parts.{JobBuilder, Outside, get_envs}
use juicefs_operator.WarmUp.Jobs.{new_warm_up_job, new_warm_up_cron_job}

module _ {V : Type 0} where
  -- The variables of a secret whose text the parser reads as `kvs`.
  abbrev pub reading : List (Text × Text) → Outside V → Outside V
  reading kvs o = record o { parse_envs = λ _. some kvs }

  module _ (kvs kvs' : List (Text × Text)) (perm : Permᴰ kvs kvs')
      (distinct : Pairwise Differ kvs) where
    get_envs-perm : (j : JobBuilder V) → get_envs (λ _. some kvs) j ≡ get_envs (λ _. some kvs') j
    unfolding get_envs
    get_envs-perm j = elim (Option-cases j.worker) [
      | inl e ↦ rw e (
          secret_envs-perm kvs kvs' perm distinct (lookup "envs" j.secret)
            (stripped_envs j.wu.secret_ref ++ j.wu.env))
      | inr (w, e) ↦ rw e refl
    ]

    new_warm_up_job-perm :
        (o : Outside V) (j : JobBuilder V)
        → new_warm_up_job (reading kvs o) j ≡ new_warm_up_job (reading kvs' o) j
    unfolding new_warm_up_job
    new_warm_up_job-perm o j = rw (get_envs-perm j) refl

    -- The cron job of a warm-up, its hash included, is the same for every order in which Go ranges over
    -- the map of the secret's variables, whose keys differ: the controller does not update it for
    -- another order.
    pub new_warm_up_cron_job-perm :
        (o : Outside V) (j : JobBuilder V)
        → new_warm_up_cron_job (reading kvs o) j ≡ new_warm_up_cron_job (reading kvs' o) j
    unfolding new_warm_up_cron_job
    new_warm_up_cron_job-perm o j = rw (new_warm_up_job-perm o j) refl
