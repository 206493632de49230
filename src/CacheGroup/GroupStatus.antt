-- ===== src/CacheGroup/GroupStatus.antt =====
-- The status of a cache group and its join batch: calculateStatus of
-- internal/controller/cachegroup_controller.go and GenCacheGroupName of pkg/builder.
pub mod Batch
use juicefs_operator.Base.{
  ℕ, suc, ◌+◌, String, Bool, true, false, not, ◌&&◌, ◌||◌, Option, none, some, List, [], ◌∷◌, ◌++◌,
  str_eq, str_append, leb, ltb, ◌==◌, if◌then◌else◌, is_some, contains, filterb, countb, all,
  length, map,
}
use juicefs_operator.Base.Sort.{sort_strings}
use juicefs_operator.Kube.{Pod, pod_ready}
use juicefs_operator.CacheGroup.{
  Rebalance, CacheGroup, Status, Template, waiting, progressing, ready, get_backup_worker_duration,
}
use juicefs_operator.CacheGroup.Join.{cache_group_rebalance_delay}
use juicefs_operator.CacheGroup.Update.{get_pod_name, find_worker}

unfoldable pub gen_cache_group_name : CacheGroup → String
gen_cache_group_name cg =
    if not (str_eq cg.spec.cache_group "")
    then cg.spec.cache_group
    else str_append cg.namespace (str_append "-" cg.name)

abbrev pub is_joining : Pod → Bool
is_joining p = is_some p.annotations.backup_worker

abbrev pub is_leaving : Pod → Bool
is_leaving p = is_some p.annotations.waiting_delete

-- `&CacheGroupRebalanceStatus{Members: []string{}}`: the start is Go's zero time.
abbrev batch_or_new : Option Rebalance → Rebalance
batch_or_new none = record { members = []; start_at = 0 }
batch_or_new (some b) = b

add_member : ℕ → String → ℕ → Rebalance → Rebalance
add_member delay name joined_at b = if contains b.members name then b else record {
  members = b.members ++ name ∷ [];
  start_at = if ltb b.start_at (joined_at + delay) then joined_at + delay else b.start_at;
}

join_step : ℕ → Option Rebalance → Pod → Option Rebalance
unfolding add_member
join_step delay batch w = elim w.annotations.backup_worker [
  | none ↦ batch
  | some joined_at ↦ some (add_member delay w.name joined_at (batch_or_new batch))
]

-- The part of the loop over the workers that collects the join batch.
unfoldable pub join_batch : ℕ → Option Rebalance → List Pod → Option Rebalance
unfolding join_step
join_batch delay batch [] = batch
join_batch delay batch (w ∷ ws) = join_batch delay (join_step delay batch w) ws

module _ (now : ℕ) (cg : CacheGroup) (expected : List String) (workers : List Pod) where
  -- A member is through when it is up without its join option.
  unfoldable pub is_through : String → Bool
  is_through name = elim (find_worker name workers) [
    | none ↦ false
    | some w ↦ contains expected name && not (is_joining w) && not w.deleting && pod_ready w
  ]

  unfoldable pub remaining_members : List String → List String
  remaining_members members =
      sort_strings
        (filterb (λ name. contains expected name || is_some (find_worker name workers)) members)

  abbrev no_member : List String → Bool
  no_member [] = true
  no_member (_ ∷ _) = false

  unfoldable pub close_batch : Rebalance → Option Rebalance
  close_batch b =
      let members = remaining_members b.members in
      let finished = leb b.start_at now && all is_through members in
      let deadline = b.start_at + get_backup_worker_duration cg.spec.backup_duration in
      if no_member members || finished
      then none
      else if leb deadline now
      then none
      else some (record { members = members; start_at = b.start_at })

module _ (parse_duration : String → Option ℕ) (now : ℕ) (cg : CacheGroup) (file_system : String)
    (expect_states : List (String × Template)) (workers : List Pod) where
  unfoldable pub expected_names : List String
  expected_names = map (λ s. get_pod_name cg s.0) expect_states

  unfoldable pub rebalance_status : Option Rebalance
  rebalance_status =
      elim (join_batch (cache_group_rebalance_delay parse_duration workers) cg.status.rebalance
        workers) [ none ↦ none | some b ↦ close_batch now cg expected_names workers b ]

  unfoldable pub waiting_status : Status
  waiting_status = record cg.status {
    file_system = file_system;
    ready_str = none;
    ready_worker = 0;
    expect_worker = 0;
    backup_worker = 0;
    rebalance = none;
    phase = waiting;
  }

  unfoldable pub working_status : Status
  working_status =
      let ready_worker = countb pod_ready workers in
      let expect_worker = length expect_states in
      record cg.status {
        file_system = file_system;
        rebalance = rebalance_status;
        ready_worker = ready_worker;
        expect_worker = expect_worker;
        backup_worker = countb is_joining workers;
        waiting_deleted_worker = countb is_leaving workers;
        ready_str = some (ready_worker, expect_worker);
        phase = if not (expect_worker == ready_worker) then progressing else ready;
        cache_group = gen_cache_group_name cg;
      }

  unfoldable pub calculate_status : Status
  unfolding waiting_status working_status
  calculate_status = elim expect_states [ [] ↦ waiting_status | _ ∷ _ ↦ working_status ]
