-- ===== src/CacheGroup/GroupStatus/Batch.antt =====
-- The join batch in the status: who is in it, how long it may block, and the counters beside it.
use juicefs_operator.Base.{
  ℕ, suc, ◌+◌, ◌<◌, String, ◌≡◌, ◌⊎◌, ◌↔◌, inl, inr, refl, Bool, true, false, ◌&&◌, ◌||◌, Option,
  none, some, List, [], ◌∷◌, ◌++◌, arith, str_eq, str_eq_iff, contains, filterb, countb, all,
  length, is_some, Option-cases, All, All-zip, ap, Memᴰ, All-mem,
}
use juicefs_operator.Base.Sort.{contains-sort_strings}
use juicefs_operator.Kube.{Pod, pod_ready}
use juicefs_operator.CacheGroup.{Rebalance, CacheGroup, Template, ready, get_backup_worker_duration}
use juicefs_operator.CacheGroup.Join.{cache_group_rebalance_delay}
use juicefs_operator.CacheGroup.Update.{find_worker}
use juicefs_operator.CacheGroup.GroupStatus.{
  is_joining, is_leaving, join_batch, is_through, remaining_members, close_batch, expected_names,
  rebalance_status, calculate_status, join_step,
}

contains-append :
    (k x : String) (xs : List String) → contains (xs ++ x ∷ []) k ≡ (str_eq x k || contains xs k)
contains-append k x [] = refl
contains-append k x (y ∷ xs) = ground (arith, contains-append k x xs)

contains-filterb :
    (p : String → Bool) (k : String) (xs : List String)
    → contains (filterb p xs) k ≡ (contains xs k && p k)
contains-filterb p k [] = refl
contains-filterb p k (x ∷ xs) = ground (arith, contains-filterb p k xs, str_eq_iff x k)

abbrev members_of : Option Rebalance → List String
members_of none = []
members_of (some b) = b.members

join_step-keeps :
    (delay : ℕ) (batch : Option Rebalance) (w : Pod) (k : String)
    → contains (members_of batch) k ≡ true
    → contains (members_of (join_step delay batch w)) k ≡ true
unfolding join_step
join_step-keeps delay none w k h = absurd (ground arith)
join_step-keeps delay (some b) w k h = ground (arith, contains-append k w.name b.members)

join_step-adds :
    (delay : ℕ) (batch : Option Rebalance) (w : Pod)
    → is_joining w ≡ true
    → contains (members_of (join_step delay batch w)) w.name ≡ true
unfolding join_step
join_step-adds delay none w h = ground (arith, str_eq_iff w.name w.name)
join_step-adds delay (some b) w h =
    ground (arith, contains-append w.name w.name b.members, str_eq_iff w.name w.name)

join_batch-keeps :
    (delay : ℕ) (batch : Option Rebalance) (ws : List Pod) (k : String)
    → contains (members_of batch) k ≡ true
    → contains (members_of (join_batch delay batch ws)) k ≡ true
unfolding join_batch
join_batch-keeps delay batch [] k h = h
join_batch-keeps delay batch (w ∷ ws) k h =
    join_batch-keeps delay (join_step delay batch w) ws k (join_step-keeps delay batch w k h)

abbrev IsMemberIfJoining : List String → Pod → Type 0
IsMemberIfJoining members w = is_joining w ≡ true → contains members w.name ≡ true

join_batch-members :
    (delay : ℕ) (batch : Option Rebalance) (ws : List Pod)
    → All (IsMemberIfJoining (members_of (join_batch delay batch ws))) ws
unfolding join_batch
join_batch-members delay batch [] = tt
join_batch-members delay batch (w ∷ ws) = (
  λ j. join_batch-keeps delay (join_step delay batch w) ws w.name (join_step-adds delay batch w j),
  join_batch-members delay (join_step delay batch w) ws,
)

find_worker-cons :
    (w : Pod) (ws : List Pod) (k : String)
    → is_some (find_worker k ws) ≡ true
    → is_some (find_worker k (w ∷ ws)) ≡ true
unfolding find_worker
find_worker-cons w ws k h = ground arith

abbrev Exists : List Pod → Pod → Type 0
Exists workers w = is_some (find_worker w.name workers) ≡ true

find_worker_self : (ws : List Pod) → All (Exists ws) ws
unfolding find_worker
find_worker_self [] = tt
find_worker_self (w ∷ ws) = (
  ground (arith, str_eq_iff w.name w.name),
  All-zip {P = Exists ws} {Q = Exists ws} (λ v h _. find_worker-cons w ws v.name h) ws
      (find_worker_self ws) (find_worker_self ws),
)

module _ (now : ℕ) (cg : CacheGroup) (expected : List String) (workers : List Pod) where
  remaining-contains :
      (members : List String) (k : String)
      → is_some (find_worker k workers) ≡ true
      → contains members k ≡ true
      → contains (remaining_members now cg expected workers members) k ≡ true
  unfolding remaining_members
  remaining-contains members k e h = ground (
    arith,
    contains-sort_strings k
        (filterb (λ name. contains expected name || is_some (find_worker name workers)) members),
    contains-filterb (λ name. contains expected name || is_some (find_worker name workers)) k
        members,
  )

  close_batch_open :
      (b : Rebalance) {r : Rebalance}
      → close_batch now cg expected workers b ≡ some r
      → (r.members ≡ remaining_members now cg expected workers b.members)
        × (now < r.start_at + get_backup_worker_duration cg.spec.backup_duration)
        × ((now < r.start_at) ⊎ (all (is_through now cg expected workers) r.members ≡ false))
  unfolding close_batch
  close_batch_open b h = (ground arith, ground arith, ground arith)

module _ (parse_duration : String → Option ℕ) (now : ℕ) (cg : CacheGroup) (file_system : String)
    (expect_states : List (String × Template)) (workers : List Pod) where
  abbrev collected : Option Rebalance
  collected =
      join_batch (cache_group_rebalance_delay parse_duration workers) cg.status.rebalance workers

  rebalance_status_from :
      {r : Rebalance}
      → rebalance_status parse_duration now cg file_system expect_states workers ≡ some r
      → (b : Rebalance) × (collected ≡ some b)
        × (close_batch now cg
              (expected_names parse_duration now cg file_system expect_states workers)
              workers
              b
            ≡ some r)
  unfolding rebalance_status
  rebalance_status_from h = elim (Option-cases collected) [
    | inl e ↦ absurd (ground arith)
    | inr (b, e) ↦ (b, e, ground arith)
  ]

  -- While a join batch is kept in the status, every worker that carries the join annotation is one
  -- of its members.
  pub rebalance_status-members :
      {r : Rebalance} (w : Pod)
      → rebalance_status parse_duration now cg file_system expect_states workers ≡ some r
      → Memᴰ w workers
      → is_joining w ≡ true
      → contains r.members w.name ≡ true
  rebalance_status-members w h mem joins =
      let (b, e, closed) = rebalance_status_from h in
      let expected = expected_names parse_duration now cg file_system expect_states workers in
      let (same, _, _) = close_batch_open now cg expected workers b closed in
      let joined =
        All-mem (IsMemberIfJoining (members_of collected))
          (join_batch-members (cache_group_rebalance_delay parse_duration workers)
            cg.status.rebalance workers)
          mem joins in
      rw same (
        remaining-contains now cg expected workers b.members w.name
          (All-mem (Exists workers) (find_worker_self workers) mem)
          (rw (ap members_of e) at joined))

  -- A join batch that is kept in the status has not reached its deadline, the configured duration
  -- after its start; and it has not started yet or some member is not through.
  pub rebalance_status-open :
      {r : Rebalance}
      → rebalance_status parse_duration now cg file_system expect_states workers ≡ some r
      → (now < r.start_at + get_backup_worker_duration cg.spec.backup_duration)
        × ((now < r.start_at)
            ⊎ (all
                  (is_through now cg
                    (expected_names parse_duration now cg file_system expect_states workers)
                    workers)
                  r.members
                ≡ false))
  rebalance_status-open h =
      let (b, e, closed) = rebalance_status_from h in
      let expected = expected_names parse_duration now cg file_system expect_states workers in
      let (same, young, busy) = close_batch_open now cg expected workers b closed in (young, busy)

-- With workers expected, the counters of the status are those of the workers, and the group is ready
-- exactly when as many workers are ready as are expected.
pub calculate_status-counts :
    (parse_duration : String → Option ℕ) (now : ℕ) (cg : CacheGroup) (file_system : String)
    (first : String × Template) (others : List (String × Template)) (workers : List Pod)
    → let s = calculate_status parse_duration now cg file_system (first ∷ others) workers in
      (s.ready_worker ≡ countb pod_ready workers)
      × (s.expect_worker ≡ suc (length others))
      × (s.backup_worker ≡ countb is_joining workers)
      × (s.waiting_deleted_worker ≡ countb is_leaving workers)
      × ((s.phase ≡ ready) ↔ (s.ready_worker ≡ s.expect_worker))
unfolding calculate_status
calculate_status-counts parse_duration now cg file_system first others workers =
    (refl, refl, refl, refl, ground arith)
