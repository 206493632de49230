-- ===== src/CacheGroup/Reconcile/Laws.antt =====
-- When a reconciliation touches a cache group, and when it leaves it alone for good.
use juicefs_operator.Base.{
  ℕ, String, ◌≡◌, ◌≢◌, refl, Bool, true, false, Option, none, some, List, [], ◌∷◌, ◌++◌, arith,
  length, countb, if◌then◌else◌, if_ind, subst, sym, ap, ◌∙◌,
}
use juicefs_operator.Kube.{ApiError, Pod, pod_ready}
use juicefs_operator.CacheGroup.{CacheGroup, Status, Template, IntOrString}
use juicefs_operator.CacheGroup.Calls.{Run, Failure, api}
use juicefs_operator.CacheGroup.Update.{WorkerBuilder}
use juicefs_operator.CacheGroup.GroupStatus.{
  calculate_status, waiting_status, working_status, is_joining, is_leaving,
}
use juicefs_operator.CacheGroup.Reconcile.{
  SyncAnswers, sync_answered, Joined, Synced, sync, finish, sync_listed, validate_secret,
  with_status, sync_and_remove,
}
use juicefs_operator.CacheGroup.Reconcile.Group.{
  Object, Outcome, is_unsettled, after_sync, on_deleting, on_live, reconcile_found,
}

live_outcome :
    (States : Type 0) (deleting fin : Bool) (cleaned : Run) (update : Option ApiError)
    (states : States) (synced : States → Synced)
    → deleting ≡ false
    → fin ≡ true
    → (if deleting
        then on_deleting fin cleaned update
        else on_live States fin update (some states) synced)
      ≡ after_sync (synced states)
unfolding on_live
live_outcome States false true cleaned update states synced d f = refl
live_outcome States false false cleaned update states synced d f = cc
live_outcome States true fin cleaned update states synced d f = cc

-- All expected workers are ready, and none is joining or leaving.
pub record IsSettled (expected : ℕ) (workers : List Pod) : Type 0 where
  pub ready : countb pod_ready workers ≡ expected
  pub joining : countb is_joining workers ≡ 0
  pub leaving : countb is_leaving workers ≡ 0

snoc-ne : (xs : List Failure) (f : Failure) → (xs ++ f ∷ []) ≢ []
snoc-ne [] f h = cc
snoc-ne (x ∷ xs) f h = cc

module _ (parse_duration : String → Option ℕ) (scaled : IntOrString → ℕ → Option ℕ)
    (same : Status → Status → Bool) (builder : WorkerBuilder) (now : ℕ) (a : SyncAnswers) where
  status-IsSettled :
      (cg : CacheGroup) (states : List (String × Template)) (workers : List Pod)
      → is_unsettled (calculate_status parse_duration now cg a.file_system states workers) ≡ false
      → IsSettled (length states) workers
  unfolding is_unsettled calculate_status waiting_status working_status
  status-IsSettled cg [] workers h = absurd (ground arith)
  status-IsSettled cg (t ∷ ts) workers h = record {
    ready = ground arith;
    joining = ground arith;
    leaving = ground arith;
  }

  abbrev Computed : List (String × Template) → Synced → Type 0
  Computed states s =
      (workers : List Pod) × (a.listed_again ≡ some workers)
      × (cg : CacheGroup) × (s.status
          ≡ calculate_status parse_duration now cg a.file_system states workers)

  finish-Computed :
      (base cg : CacheGroup) (states : List (String × Template)) (joined : Joined)
      (listed : Option (List Pod))
      → a.listed_again ≡ listed
      → (finish parse_duration scaled same builder now a base cg states joined listed).failures ≡ []
      → Computed states
          (finish parse_duration scaled same builder now a base cg states joined listed)
  unfolding finish
  finish-Computed base cg states joined none e h =
      absurd (snoc-ne joined.1 (api ApiError.other_error) h)
  finish-Computed base cg states joined (some workers) e h = (
    workers,
    e,
    cg,
    if_ind
        (λ (s : Synced).
          s.status ≡ calculate_status parse_duration now cg a.file_system states workers)
        (same base.status (calculate_status parse_duration now cg a.file_system states workers))
        (λ _. refl) (λ _. refl),
  )

  sync_answered-Computed :
      (cg : CacheGroup) (states : List (String × Template)) (got : Option ApiError) (valid : Bool)
      (listed : Option (List Pod))
      → (sync_answered parse_duration scaled same builder now a cg states got valid listed).failures
        ≡ []
      → Computed states
          (sync_answered parse_duration scaled same builder now a cg states got valid listed)
  unfolding sync_answered sync_listed
  sync_answered-Computed cg states (some e) valid listed h = cc
  sync_answered-Computed cg states none false listed h = cc
  sync_answered-Computed cg states none true none h = cc
  sync_answered-Computed cg states none true (some workers) h =
      let first = with_status parse_duration scaled same builder now a cg states workers in
      finish-Computed cg first states
        (sync_and_remove parse_duration scaled same builder now a first states workers)
        a.listed_again refl h

  sync-Computed :
      (cg : CacheGroup) (states : List (String × Template))
      → (sync parse_duration scaled same builder now a cg states).failures ≡ []
      → Computed states (sync parse_duration scaled same builder now a cg states)
  unfolding sync
  sync-Computed cg states h =
      sync_answered-Computed cg states a.get_secret (validate_secret (some a.secret)) a.listed h

  sync-IsSettled :
      (cg : CacheGroup) (states : List (String × Template))
      → (after_sync (sync parse_duration scaled same builder now a cg states)).failures ≡ []
      → (after_sync (sync parse_duration scaled same builder now a cg states)).requeue_after ≡ none
      → (workers : List Pod) × (a.listed_again ≡ some workers) × IsSettled (length states) workers
  unfolding after_sync
  sync-IsSettled cg states h k =
      let s = sync parse_duration scaled same builder now a cg states in
      let (workers, l, c, e) = sync-Computed cg states h in
      let calm : is_unsettled s.status ≡ false = ground arith in
      (workers, l, status-IsSettled c states workers (subst (λ t. is_unsettled t ≡ false) e calm))

  -- A live group that has the finalizer is left without a requeue only when the sync met no failure
  -- and, in the last list of its workers, as many are ready as are expected and none is joining or
  -- leaving: until then the group is looked at again.
  pub reconcile_found-IsSettled :
      (o : Object) (cleaned : Run) (update : Option ApiError) (states : List (String × Template))
      → o.deleting ≡ false
      → o.has_finalizer ≡ true
      → (reconcile_found
          (List (String × Template))
          o
          cleaned
          update
          (some states)
          (sync parse_duration scaled same builder now a o.group)).failures
        ≡ []
      → (reconcile_found
          (List (String × Template))
          o
          cleaned
          update
          (some states)
          (sync parse_duration scaled same builder now a o.group)).requeue_after
        ≡ none
      → (workers : List Pod) × (a.listed_again ≡ some workers) × IsSettled (length states) workers
  unfolding reconcile_found
  reconcile_found-IsSettled o cleaned update states d f h k =
      let e =
        live_outcome (List (String × Template)) o.deleting o.has_finalizer cleaned update states
          (sync parse_duration scaled same builder now a o.group) d f in
      sync-IsSettled o.group states (sym (ap (λ (r : Outcome). r.failures) e) ∙ h)
        (sym (ap (λ (r : Outcome). r.requeue_after) e) ∙ k)
