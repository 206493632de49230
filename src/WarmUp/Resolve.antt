-- ===== src/WarmUp/Resolve.antt =====
-- Reconcile, getWarmUpHandler, resolveWarmUpJobBuilder and resolveWarmUpCacheGroup of
-- internal/controller/warmup_controller.go.
pub mod Laws
use juicefs_operator.Base.{
  ℕ, String, Bool, true, false, Option, none, some, List, [], ◌∷◌, if◌then◌else◌, ◌>>=◌,
}
use juicefs_operator.Base.Int.{ℤ}
use juicefs_operator.Base.Text.{Text, text_eq}
use juicefs_operator.CacheGroup.{CacheGroup}
use juicefs_operator.CacheGroup.GroupStatus.{gen_cache_group_name}
use juicefs_operator.WarmUp.{Status, WarmUp, Outcome}
use juicefs_operator.WarmUp.Once.{Answers, sync_once}
use juicefs_operator.WarmUp.Cron.{CronAnswers, sync_cron}
use juicefs_operator.WarmUp.MountInfo.{Worker}

-- The policy's type; `unset` is the empty string.
pub data Policy : Type 0 where
  unset once cron other_policy : Policy

pub data Handler : Type 0 where
  once_handler cron_handler : Handler

unfoldable pub get_warm_up_handler : (cronjob_supported : Bool) → Policy → Option Handler
get_warm_up_handler supported unset = some once_handler
get_warm_up_handler supported once = some once_handler
get_warm_up_handler supported cron = if supported then some cron_handler else none
get_warm_up_handler supported other_policy = none

-- The answer to a Get.
pub data Lookup (A : Type 0) : Type 0 where
  found : A → Lookup A
  missing lookup_error : Lookup A

-- The answers of the API server: the secret, the groups of the name and of the status (`none` is an
-- error of the List), and the workers with the label of a group.
pub record Cluster : Type 0 where
  pub secret : Lookup (List (String × Text))
  pub by_name : Lookup CacheGroup
  pub by_status : Option (List CacheGroup)
  pub workers : String → Option (List Worker)

-- What the job is built from, with the name of the cache group that it joins.
pub data JobBuilder : Type 0 where
  of_secret : List (String × Text) → String → JobBuilder
  of_worker : Worker → String → JobBuilder

unfoldable pub first : {A : Type 0} → List A → Option A
first [] = none
first (a ∷ rest) = some a

unfoldable pub group_of : Lookup CacheGroup → Option (List CacheGroup) → Option CacheGroup
unfolding first
group_of (found cg) by_status = some cg
group_of lookup_error by_status = none
group_of missing by_status = by_status >>= first

unfoldable pub resolve_warm_up_cache_group : Cluster → Option CacheGroup
unfolding group_of
resolve_warm_up_cache_group c = group_of c.by_name c.by_status

unfoldable pub by_secret :
    WarmUp → (image : Text) → Lookup (List (String × Text)) → Option (JobBuilder × String)
by_secret wu [] secret = none
by_secret wu (x ∷ image) missing = none
by_secret wu (x ∷ image) lookup_error = none
by_secret wu (x ∷ image) (found s) = some (of_secret s wu.cache_group_name, wu.cache_group_name)

unfoldable pub by_group : Cluster → Option (JobBuilder × String)
unfolding gen_cache_group_name
by_group c = resolve_warm_up_cache_group c >>= λ cg. c.workers cg.name >>= λ ws.
    first ws >>= λ w. some (of_worker w (gen_cache_group_name cg), cg.name)

-- The builder, with the name that the status takes; `none` is an error.
unfoldable pub resolve_warm_up_job_builder :
    WarmUp → (image : Text) → Cluster → Option (JobBuilder × String)
unfolding by_secret by_group
resolve_warm_up_job_builder wu image c =
    if wu.has_secret then by_secret wu image c.secret else by_group c

abbrev pub name_of : Option (JobBuilder × String) → Option String
name_of none = none
name_of (some (b, name)) = some name

abbrev pub group_name : Option CacheGroup → Option String
group_name none = none
group_name (some cg) = some cg.name

-- What one call comes to.
pub data Reconciled : Type 0 where
  ignored get_failed : Reconciled
  handled : Outcome → Reconciled

-- A WarmUp as the controller finds it.
pub record Item : Type 0 where
  pub warm_up : WarmUp
  pub image : Text
  pub policy : Policy
  pub deleting : Bool

-- The answers of the once handler, with those of the two lookups in their place.
abbrev pub with_lookups : Cluster → Item → Answers → Answers
with_lookups c i a = record a {
  resolved = name_of (resolve_warm_up_job_builder i.warm_up i.image c);
  group_found = group_name (resolve_warm_up_cache_group c);
}

module _ (parse_bytes : String → Option ℤ) (percent : ℤ → ℤ → String) (duration : ℕ → ℕ → String)
    (unchanged : Status → Status → Bool) (cronjob_supported : Bool) (c : Cluster) (a : Answers)
    (ca : CronAnswers) where
  handle : Item → Handler → Outcome
  unfolding sync_once sync_cron resolve_warm_up_job_builder
  handle i once_handler =
      sync_once parse_bytes percent duration unchanged i.warm_up (with_lookups c i a)
  handle i cron_handler =
      sync_cron i.warm_up
        (record ca { cron_resolved = name_of (resolve_warm_up_job_builder i.warm_up i.image c) })

  unfoldable pub reconcile : Lookup Item → Reconciled
  unfolding handle get_warm_up_handler
  reconcile missing = ignored
  reconcile lookup_error = get_failed
  reconcile (found i) =
      if i.deleting then ignored else elim (get_warm_up_handler cronjob_supported i.policy) [
        | none ↦ ignored
        | some h ↦ handled (handle i h)
      ]
