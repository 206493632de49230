-- ===== src/CacheGroup/Volumes/Laws.antt =====
-- What the controller may do to volume claims and caches.
use juicefs_operator.Base.{
  String, ◌≡◌, refl, Bool, true, false, not, ◌&&◌, Option, none, some, List, [], ◌∷◌, ltb, arith,
  is_some, from_option, Bool-cases, inl, inr, if_ind, if◌then◌else◌, ◌⊎◌,
}
use juicefs_operator.Base.Text.{Text, codes}
use juicefs_operator.Kube.{ApiError, not_found, conflict, already_exists, other_error}
use juicefs_operator.CacheGroup.{CacheGroup}
use juicefs_operator.CacheGroup.Calls.{
  Call, create_pvc, update_pvc, delete_pvc, create_clean_job, Run, Failure, calls_only,
  calls_only->>, done,
}
use juicefs_operator.CacheGroup.Volumes.{
  Got, failed, found, Claim, ClaimTemplate, gen_pvc_name, CacheDir, host_path, pvc,
  volume_claim_templates, Volume, expand, ensure_pvc_for_volume_claim_template,
  ensure_pvcs_for_worker, delete_found, delete_source, is_cache_dir, delete_pvc_for_cache_group,
  Source, on_host, other_source, of_claim,
}
use juicefs_operator.CacheGroup.Volumes.Cleaning.{
  CleanAnswers, Worker, FinalAnswers, run_job, on_job, new_clean_cache_job, clean_volumes,
  clean_by_job, clean_worker_cache, clean_all, handle_finalizer,
}

-- A claim is created where there is none, and updated only if it is the group's own, to a request
-- above its own.
abbrev pub may_write : (String → Got) → Call → Bool
may_write get (create_pvc name) = elim (get name) [ failed not_found ↦ true | _ ↦ false ]
may_write get (update_pvc name n) = elim (get name) [
  | found c ↦ c.controlled && ltb (from_option 0 c.storage) n
  | failed _ ↦ false
]
may_write get _ = false

expand-may_write :
    (get : String → Got) (name : String) (t : ClaimTemplate) (c : Claim) (answer : Option ApiError)
    → get name ≡ found c
    → calls_only (may_write get) (expand name t c answer) ≡ true
unfolding expand
expand-may_write get name t c none e = ground arith
expand-may_write get name t c (some f) e = ground arith

ensure_pvc-may_write :
    (get : String → Got) (worker : String) (t : ClaimTemplate) (got : Got)
    (answer : Option ApiError)
    → get (gen_pvc_name t.name worker) ≡ got
    → calls_only (may_write get) (ensure_pvc_for_volume_claim_template worker (some t) got answer)
      ≡ true
unfolding ensure_pvc_for_volume_claim_template
ensure_pvc-may_write get worker t (found c) answer e =
    expand-may_write get (gen_pvc_name t.name worker) t c answer e
ensure_pvc-may_write get worker t (failed not_found) none e = ground arith
ensure_pvc-may_write get worker t (failed not_found) (some f) e = ground arith
ensure_pvc-may_write get worker t (failed conflict) answer e = refl
ensure_pvc-may_write get worker t (failed already_exists) answer e = refl
ensure_pvc-may_write get worker t (failed other_error) answer e = refl

-- For the cache directories of a worker the controller only creates the claims that are missing, and
-- only raises the request of a claim that the cache group controls: it never shrinks a claim and
-- never writes one of somebody else.
pub ensure_pvcs_for_worker-may_write :
    (get : String → Got) (write : String → Option ApiError) (worker : String) (dirs : List CacheDir)
    → calls_only (may_write get) (ensure_pvcs_for_worker get write worker dirs) ≡ true
unfolding ensure_pvcs_for_worker
ensure_pvcs_for_worker-may_write get write worker [] = refl
ensure_pvcs_for_worker-may_write get write worker (host_path ∷ dirs) =
    ensure_pvcs_for_worker-may_write get write worker dirs
ensure_pvcs_for_worker-may_write get write worker (pvc ∷ dirs) =
    ensure_pvcs_for_worker-may_write get write worker dirs
ensure_pvcs_for_worker-may_write get write worker (volume_claim_templates none ∷ dirs) = refl
ensure_pvcs_for_worker-may_write get write worker (volume_claim_templates (some t) ∷ dirs) =
    let name = gen_pvc_name t.name worker in
    calls_only->> (may_write get)
      (ensure_pvc_for_volume_claim_template worker (some t) (get name) (write name))
      (ensure_pvcs_for_worker get write worker dirs)
      (ensure_pvc-may_write get worker t (get name) (write name) refl)
      (ensure_pvcs_for_worker-may_write get write worker dirs)

abbrev is_own : Got → Bool
is_own (failed _) = false
is_own (found c) = c.controlled

-- Under `cleanCache` alone: the deletion of a claim that the group controls, and a job, but for a
-- group with replicas.
abbrev pub may_clean : CacheGroup → (String → Got) → Call → Bool
may_clean cg get (delete_pvc name) = cg.spec.clean_cache && is_own (get name)
may_clean cg get (create_clean_job name) = cg.spec.clean_cache && not (is_some cg.spec.replicas)
may_clean cg get _ = false

module _ (cg : CacheGroup) (get : String → Got) (on : cg.spec.clean_cache ≡ true) where
  delete_found-may_clean :
      (name : String) (got : Got) (answer : Option ApiError)
      → get name ≡ got
      → calls_only (may_clean cg get) (delete_found name got answer) ≡ true
  unfolding delete_found
  delete_found-may_clean name (failed not_found) answer e = refl
  delete_found-may_clean name (failed conflict) answer e = refl
  delete_found-may_clean name (failed already_exists) answer e = refl
  delete_found-may_clean name (failed other_error) answer e = refl
  delete_found-may_clean name (found c) none e = ground arith
  delete_found-may_clean name (found c) (some not_found) e = ground arith
  delete_found-may_clean name (found c) (some conflict) e = ground arith
  delete_found-may_clean name (found c) (some already_exists) e = ground arith
  delete_found-may_clean name (found c) (some other_error) e = ground arith

  delete_source-may_clean :
      (delete : String → Option ApiError) (source : Source)
      → calls_only (may_clean cg get) (delete_source get delete source) ≡ true
  unfolding delete_source
  delete_source-may_clean delete (of_claim c) = delete_found-may_clean c (get c) (delete c) refl
  delete_source-may_clean delete on_host = refl
  delete_source-may_clean delete other_source = refl

  delete_pvc-may_clean :
      (delete : String → Option ApiError) (vs : List Volume)
      → calls_only (may_clean cg get) (delete_pvc_for_cache_group get delete vs) ≡ true
  unfolding delete_pvc_for_cache_group
  delete_pvc-may_clean delete [] = refl
  delete_pvc-may_clean delete (v ∷ vs) =
      calls_only->> (may_clean cg get)
        (if is_cache_dir v then delete_source get delete v.source else done)
        (delete_pvc_for_cache_group get delete vs)
        (if_ind (λ r. calls_only (may_clean cg get) r ≡ true) (is_cache_dir v)
          (λ _. delete_source-may_clean delete v.source) (λ _. refl))
        (delete_pvc-may_clean delete vs)

  job_case :
      (got created : Option ApiError) (name : String)
      → is_some cg.spec.replicas ≡ false
      → calls_only (may_clean cg get) (on_job got created name) ≡ true
  unfolding on_job
  job_case none created name r = refl
  job_case (some not_found) none name r = ground arith
  job_case (some not_found) (some f) name r = ground arith
  job_case (some conflict) created name r = refl
  job_case (some already_exists) created name r = refl
  job_case (some other_error) created name r = refl

  run_job-may_clean :
      (a : CleanAnswers) (name : String)
      → is_some cg.spec.replicas ≡ false
      → calls_only (may_clean cg get) (run_job a name) ≡ true
  unfolding run_job
  run_job-may_clean a name r = job_case a.get_job a.create_job name r

clean_by_job-may_clean :
    (cg : CacheGroup) (fs : Text) (a : CleanAnswers) (w : Worker)
    (vs : List Volume × Option Failure)
    → cg.spec.clean_cache ≡ true
    → is_some cg.spec.replicas ≡ false
    → calls_only (may_clean cg a.get_again) (clean_by_job fs a w vs) ≡ true
unfolding clean_by_job
clean_by_job-may_clean cg fs a w (vs, some f) on r = refl
clean_by_job-may_clean cg fs a w (vs, none) on r =
    let p = may_clean cg a.get_again in
    calls_only->> p
      (if is_some (new_clean_cache_job fs w.devices vs) then run_job a w.job_name else done)
      (delete_pvc_for_cache_group a.get_again a.delete w.volumes)
      (if_ind (λ (m : Run). calls_only p m ≡ true) (is_some (new_clean_cache_job fs w.devices vs))
        (λ _. run_job-may_clean cg a.get_again on a w.job_name r) (λ _. refl))
      (delete_pvc-may_clean cg a.get_again on a.delete w.volumes)

-- Cleaning the cache of a worker does nothing without `cleanCache`; with it, it deletes only the
-- claims that the cache group controls, and creates a job only in a group without replicas.
pub clean_worker_cache-may_clean :
    (cg : CacheGroup) (fs : Text) (a : CleanAnswers) (w : Worker)
    → calls_only (may_clean cg a.get_again) (clean_worker_cache cg fs a w) ≡ true
unfolding clean_worker_cache
clean_worker_cache-may_clean cg fs a w = elim (Bool-cases cg.spec.clean_cache) [
  | inl on ↦ elim (Bool-cases (is_some cg.spec.replicas)) [
    | inl r ↦ cc (on, r, delete_pvc-may_clean cg a.get_again on a.delete w.volumes)
    | inr r ↦ cc (on, r, clean_by_job-may_clean cg fs a w (clean_volumes a.get w.volumes) on r)
  ]
  | inr off ↦ ground arith
]

clean_all-ends :
    (cg : CacheGroup) (fs : Text) (ws : List (Worker × CleanAnswers))
    → (clean_all cg fs ws).1 ≡ none
unfolding clean_all
clean_all-ends cg fs [] = refl
clean_all-ends cg fs ((w, a) ∷ ws) = ground (arith, clean_all-ends cg fs ws)

-- The cleaning at the end of a group never keeps the group from going away: once the expected workers
-- are known and the secret is found or known to be missing, it ends well, whatever fails for a worker.
pub handle_finalizer_ends :
    (cg : CacheGroup) (a : FinalAnswers) (ws : List (Worker × CleanAnswers))
    → a.expected ≡ some ws
    → (a.get_secret ≡ none) ⊎ (a.get_secret ≡ some not_found)
    → (handle_finalizer cg a).1 ≡ none
unfolding handle_finalizer
handle_finalizer_ends cg a ws e s =
    ground (arith, clean_all-ends cg (codes cg.status.file_system) ws)
