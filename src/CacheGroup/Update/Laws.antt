-- ===== src/CacheGroup/Update/Laws.antt =====
-- What syncWorkers decides, and which calls carrying it out makes.
use juicefs_operator.Base.Text.{text_eq_iff}
use juicefs_operator.Base.{
  Memᴰ, All-map, ℕ, ◌-◌, ◌≤◌, String, ◌≡◌, ◌≢◌, ◌⊎◌, ◌↔◌, inl, inr, refl, true, false, not, ◌&&◌,
  Option, some, List, [], ◌∷◌, arith, str_eq_iff, leb, length, All, countb, is_some, if◌then◌else◌,
  suc, if_ind,
}
use juicefs_operator.Kube.{Pod}
use juicefs_operator.CacheGroup.{
  UpdateStrategyType, rolling_update, on_delete, IntOrString, CacheGroup, Template,
}
use juicefs_operator.CacheGroup.Join.{is_worker_v2, should_add_join_option}
use juicefs_operator.CacheGroup.Update.{
  is_ready, WorkerUpdate, up_to_date, recreate, smooth_restart, WorkerBuilder, get_pod_name,
  parse_update_strategy, is_terminal, worker_update_action, Plan, disrupts, find_worker,
  count_unavailable, blocked_by_batch, plan_of, plan_workers, sync_workers_plan,
}

module _ (parse_duration : String → Option ℕ) (builder : WorkerBuilder) (now : ℕ)
    (cg : CacheGroup) where
  plan_workers-disrupts :
      (strategy : UpdateStrategyType) (max_unavailable : ℕ) (workers : List Pod) (n : ℕ)
      (states : List (String × Template))
      → countb disrupts
          (plan_workers parse_duration builder now cg strategy max_unavailable workers n states)
        ≤ max_unavailable - n
  unfolding plan_workers
  plan_workers-disrupts strategy m workers n [] = omega arith
  plan_workers-disrupts strategy m workers n ((node, template) ∷ states) = ground (
    arith,
    plan_workers-disrupts strategy m workers n states,
    plan_workers-disrupts strategy m workers (suc n) states,
  )

  -- In one pass the workers that are down already and the ready ones that are taken down are
  -- together no more than maxUnavailable, unless more are down already; then none is taken down.
  pub sync_workers_plan-disrupts :
      (scaled : IntOrString → ℕ → Option ℕ) (states : List (String × Template)) (workers : List Pod)
      → countb disrupts (sync_workers_plan parse_duration builder now cg scaled states workers)
        ≤ (parse_update_strategy scaled cg.spec.update_strategy (length states)).1
          - count_unavailable workers
  unfolding sync_workers_plan
  sync_workers_plan-disrupts scaled states workers = plan_workers-disrupts _ _ workers _ states

  -- Why a plan may be what it is: it is for one of the expected states, and for the worker that is
  -- there by its name.
  pub record IsJustified (strategy : UpdateStrategyType) (workers : List Pod)
      (states : List (String × Template)) (p : Plan) : Type 0 where
    pub node : String
    pub expected : Memᴰ (node, p.template) states
    pub named : p.name ≡ get_pod_name cg node
    pub found : p.actual ≡ find_worker p.name workers
    pub allowed : blocked_by_batch now cg p.name p.actual ≡ false
    pub built :
        p.expect
        ≡ builder.build cg node p.template
            (should_add_join_option parse_duration now cg p.actual p.template)
    pub acts :
        ((p.update ≡ up_to_date) × (is_ready p.actual ≡ true))
        ⊎ (p.update
            ≡ worker_update_action strategy
                (builder.v1_worker_hash cg node p.template
                  (should_add_join_option parse_duration now cg p.actual p.template))
                p.expect
                p.actual)

  in_longer :
      (strategy : UpdateStrategyType) (workers : List Pod) (s : String × Template)
      (states : List (String × Template)) (p : Plan)
      → IsJustified strategy workers states p
      → IsJustified strategy workers (s ∷ states) p
  in_longer strategy workers s states p h = record {
    node = h.node;
    expected = Memᴰ.tail h.expected;
    named = h.named;
    found = h.found;
    allowed = h.allowed;
    built = h.built;
    acts = h.acts;
  }

  -- Every plan of a pass is for one of the expected states, with its template: it is for the worker of
  -- the state's name, if there is one, and expects the pod that the builder makes of the state, in the
  -- join phase as `should_add_join_option` says. It does what `worker_update_action` says of the two
  -- pods, or leaves a ready worker as it is, and it creates a worker only if the join batch lets it.
  pub plan_workers-IsJustified :
      (strategy : UpdateStrategyType) (max_unavailable : ℕ) (workers : List Pod) (n : ℕ)
      (states : List (String × Template))
      → All
          (IsJustified strategy workers states)
          (plan_workers parse_duration builder now cg strategy max_unavailable workers n states)
  unfolding plan_workers plan_of
  plan_workers-IsJustified strategy m workers n [] = tt
  plan_workers-IsJustified strategy m workers n ((node, template) ∷ states) =
      let p = plan_of parse_duration builder now cg strategy workers node template in
      let over = leb m n in
      let n' =
        if not (blocked_by_batch now cg p.name p.actual) && disrupts p && not over
        then suc n
        else n in
      let P = IsJustified strategy workers ((node, template) ∷ states) in
      let rest =
        All-map (in_longer strategy workers (node, template) states)
          (plan_workers parse_duration builder now cg strategy m workers n' states)
          (plan_workers-IsJustified strategy m workers n' states) in
      let justified : (u : WorkerUpdate)
          → ((u ≡ up_to_date) × (is_ready p.actual ≡ true)) ⊎ (u ≡ p.update)
          → blocked_by_batch now cg p.name p.actual ≡ false
          → P (record p { update = u }) =
        λ u acts allowed. record {
          node = node;
          expected = Memᴰ.head refl;
          named = refl;
          found = refl;
          allowed = allowed;
          built = refl;
          acts = acts;
        } in
      if_ind (All P) (blocked_by_batch now cg p.name p.actual) (λ _. rest)
        λ open_batch.
          if_ind (All P) (disrupts p && over)
            (λ d. (justified up_to_date (inl (refl, ground arith)) open_batch, rest))
            (λ _. (justified p.update (inr refl) open_batch, rest))

module _ (v1_hash : String) (expect actual : Pod) where
  -- Under OnDelete an existing worker is never recreated. It is restarted smoothly exactly when it
  -- is a v2 worker that is not being deleted, its join phase is to end and its template is the
  -- expected one.
  pub worker_update_action-on_delete :
      (worker_update_action on_delete v1_hash expect (some actual) ≢ recreate)
      × ((worker_update_action on_delete v1_hash expect (some actual) ≡ smooth_restart) ↔ (
          (actual.deleting ≡ false)
          × (is_worker_v2 actual ≡ true)
          × (is_some actual.annotations.backup_worker ≡ true)
          × (is_some expect.annotations.backup_worker ≡ false)
          × (actual.annotations.worker_hash ≡ expect.annotations.worker_hash)))
  unfolding worker_update_action
  worker_update_action-on_delete = (
    ground arith,
    (
      ground (arith, str_eq_iff actual.annotations.worker_hash expect.annotations.worker_hash),
      ground (arith, str_eq_iff actual.annotations.worker_hash expect.annotations.worker_hash),
    ),
  )

  -- Under RollingUpdate a worker that is not being deleted is left alone exactly when its pod has
  -- not ended, it runs the expected template (the v1 rendering for a v1 worker where a v2 one is
  -- expected) and, if it is a v2 worker, it has the expected options.
  pub worker_update_action-up_to_date :
      actual.deleting ≡ false
      → (worker_update_action rolling_update v1_hash expect (some actual) ≡ up_to_date) ↔ (
          (is_terminal actual.phase ≡ false)
          × (actual.annotations.worker_hash ≡ (
              if not (is_worker_v2 actual) && is_worker_v2 expect
              then v1_hash
              else expect.annotations.worker_hash))
          × ((is_worker_v2 actual ≡ false)
              ⊎ (actual.annotations.mount_opts ≡ expect.annotations.mount_opts)))
  unfolding worker_update_action
  worker_update_action-up_to_date h = (
    ground (
      arith,
      text_eq_iff actual.annotations.mount_opts expect.annotations.mount_opts,
      str_eq_iff v1_hash actual.annotations.worker_hash,
      str_eq_iff expect.annotations.worker_hash actual.annotations.worker_hash,
    ),
    ground (
      arith,
      text_eq_iff actual.annotations.mount_opts expect.annotations.mount_opts,
      str_eq_iff v1_hash actual.annotations.worker_hash,
      str_eq_iff expect.annotations.worker_hash actual.annotations.worker_hash,
    ),
  )
