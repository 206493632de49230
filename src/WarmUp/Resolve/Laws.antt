-- ===== src/WarmUp/Resolve/Laws.antt =====
-- When a warm-up comes to a job.
use juicefs_operator.Base.{
  ◌⊎◌, ℕ, String, Bool, true, false, Option, none, some, List, [], ◌∷◌, ◌≡◌, ◌≢◌, refl, arith, any,
  is_some, inl, inr, if◌then◌else◌, ◌∙◌, ap, bind-some,
}
use juicefs_operator.Base.Int.{ℤ}
use juicefs_operator.Base.Text.{Text}
use juicefs_operator.CacheGroup.{CacheGroup}
use juicefs_operator.WarmUp.{Status, WarmUp, Call}
use juicefs_operator.WarmUp.Once.{Answers, no_job}
use juicefs_operator.WarmUp.Once.Laws.{starts, sync_once-starts, is_final}
use juicefs_operator.WarmUp.Cron.{CronAnswers}
use juicefs_operator.WarmUp.MountInfo.{Worker}
use juicefs_operator.WarmUp.Cron.Laws.{sync_cron-starts}
use juicefs_operator.WarmUp.Resolve.{
  with_lookups, once_handler, cron_handler, ignored, handled, reconcile, handle, Handler,
  Reconciled, group_of, by_secret, by_group, get_warm_up_handler, Item, first, lookup_error, Lookup,
  found, missing, Cluster, JobBuilder, resolve_warm_up_cache_group, resolve_warm_up_job_builder,
  name_of,
}

-- A group that the warm-up may mean: the one of the name, or with no group of that name the first
-- whose status has it.
abbrev pub Means : Cluster → CacheGroup → Type 0
Means c cg =
    (c.by_name ≡ found cg)
    ⊎ ((c.by_name ≡ missing) × ((rest : List CacheGroup) × (c.by_status ≡ some (cg ∷ rest))))

-- What a job needs.
abbrev pub Resolves : Cluster → Bool → Text → Type 0
Resolves c true image = (image ≢ []) × ((s : List (String × Text)) × (c.secret ≡ found s))
Resolves c false image =
    (cg : CacheGroup) × Means c cg
    × ((w : Worker) × ((ws : List Worker) × (c.workers cg.name ≡ some (w ∷ ws))))

group_of-Means :
    (c : Cluster) (cg : CacheGroup) (g : Lookup CacheGroup) (l : Option (List CacheGroup))
    → c.by_name ≡ g
    → c.by_status ≡ l
    → group_of g l ≡ some cg
    → Means c cg
unfolding group_of first
group_of-Means c cg (found d) l e f h = inl (ground arith)
group_of-Means c cg lookup_error l e f h = cc
group_of-Means c cg missing none e f h = cc
group_of-Means c cg missing (some []) e f h = cc
group_of-Means c cg missing (some (d ∷ ds)) e f h = inr (e, (ds, ground arith))

group-Means : (c : Cluster) (cg : CacheGroup) → resolve_warm_up_cache_group c ≡ some cg → Means c cg
unfolding resolve_warm_up_cache_group group_of
group-Means c cg h = group_of-Means c cg c.by_name c.by_status refl refl h

first-some :
    (ws : List Worker) (w : Worker) → first ws ≡ some w → (rest : List Worker) × (ws ≡ w ∷ rest)
unfolding first
first-some [] w h = cc
first-some (x ∷ xs) w h = (xs, ground arith)

secret-Resolves :
    (wu : WarmUp) (c : Cluster) (image : Text) (l : Lookup (List (String × Text)))
    (r : JobBuilder × String)
    → c.secret ≡ l
    → by_secret wu image l ≡ some r
    → Resolves c true image
unfolding by_secret
secret-Resolves wu c [] l r e h = cc
secret-Resolves wu c (x ∷ image) missing r e h = cc
secret-Resolves wu c (x ∷ image) lookup_error r e h = cc
secret-Resolves wu c (x ∷ image) (found s) r e h = ((λ n. cc), (s, e))

group-Resolves :
    (c : Cluster) (image : Text) (r : JobBuilder × String)
    → by_group c ≡ some r
    → Resolves c false image
unfolding by_group
group-Resolves c image r h =
    let (cg, e, h1) = bind-some (resolve_warm_up_cache_group c) _ h in
    let (ws, f, h2) = bind-some (c.workers cg.name) _ h1 in
    let (w, g, h3) = bind-some (first ws) _ h2 in
    let (rest, k) = first-some ws w g in (cg, group-Means c cg e, (w, (rest, f ∙ ap some k)))

resolve-Resolves :
    (wu : WarmUp) (image : Text) (c : Cluster) (b : Bool) (r : JobBuilder × String)
    → (if b then by_secret wu image c.secret else by_group c) ≡ some r
    → Resolves c b image
resolve-Resolves wu image c true r h = secret-Resolves wu c image c.secret r refl h
resolve-Resolves wu image c false r h = group-Resolves c image r h

abbrev pub calls_of : Reconciled → List Call
calls_of (handled o) = o.calls
calls_of _ = []

named :
    (o : Option (JobBuilder × String))
    → is_some (name_of o) ≡ true
    → (r : JobBuilder × String) × (o ≡ some r)
named none h = cc
named (some r) h = (r, refl)

module _ (parse_bytes : String → Option ℤ) (percent : ℤ → ℤ → String) (duration : ℕ → ℕ → String)
    (unchanged : Status → Status → Bool) (cronjob_supported : Bool) (c : Cluster) (a : Answers)
    (ca : CronAnswers) where
  abbrev pub outcome : Lookup Item → Reconciled
  outcome l = reconcile parse_bytes percent duration unchanged cronjob_supported c a ca l

  -- What is known of a warm-up for which a job is started.
  abbrev pub Served : Item → Type 0
  Served i =
      (get_warm_up_handler cronjob_supported i.policy ≡ some once_handler)
      × (i.deleting ≡ false)
      × (is_final i.warm_up.status.phase ≡ false)
      × (a.got ≡ no_job)
      × Resolves c i.warm_up.has_secret i.image

  resolved :
      (i : Item)
      → is_some (name_of (resolve_warm_up_job_builder i.warm_up i.image c)) ≡ true
      → Resolves c i.warm_up.has_secret i.image
  unfolding resolve_warm_up_job_builder
  resolved i h =
      let (r, e) = named (resolve_warm_up_job_builder i.warm_up i.image c) h in
      resolve-Resolves i.warm_up i.image c i.warm_up.has_secret r e

  handle-Served :
      (i : Item) (o : Option Handler)
      → get_warm_up_handler cronjob_supported i.policy ≡ o
      → i.deleting ≡ false
      → any starts (
          calls_of (elim o [
            | none ↦ ignored
            | some h ↦
                handled (handle parse_bytes percent duration unchanged cronjob_supported c a ca i h)
          ]))
        ≡ true
      → Served i
  unfolding handle
  handle-Served i none e d h = cc
  handle-Served i (some once_handler) e d h =
      let (live, fresh, found_it) =
        sync_once-starts parse_bytes percent duration unchanged i.warm_up (with_lookups c i a) h in
      (e, d, live, fresh, resolved i found_it)
  handle-Served i (some cron_handler) e d h = absurd (
      ground (
        arith,
        sync_cron-starts i.warm_up (record ca {
          cron_resolved = name_of (resolve_warm_up_job_builder i.warm_up i.image c);
        }),
      ))

  item-Served :
      (i : Item) (b : Bool)
      → i.deleting ≡ b
      → any starts (
          calls_of (
            if b then ignored else elim (get_warm_up_handler cronjob_supported i.policy) [
              | none ↦ ignored
              | some h ↦
                  handled
                    (handle parse_bytes percent duration unchanged cronjob_supported c a ca i h)
            ]))
        ≡ true
      → Served i
  item-Served i true d h = cc
  item-Served i false d h =
      handle-Served i (get_warm_up_handler cronjob_supported i.policy) refl d h

  -- A call of the controller creates a job only for a warm-up that exists, is not being deleted, runs
  -- once, has not ended and has no job yet. With a secret reference it also has an image, and the
  -- secret is there; without one the cache group of its name is there, or with none of that name
  -- the first whose status has it, and a worker of the group is listed.
  pub reconcile-Served :
      (l : Lookup Item)
      → any starts (calls_of (outcome l)) ≡ true
      → (i : Item) × (l ≡ found i) × Served i
  unfolding reconcile
  reconcile-Served missing h = cc
  reconcile-Served lookup_error h = cc
  reconcile-Served (found i) h = (i, refl, item-Served i i.deleting refl h)
