-- ===== src/CacheGroup/Volumes/Cleaning.antt =====
-- The cleaning of the cache of a worker: cleanWorkerCache and HandleFinalizer of
-- internal/controller/cachegroup_controller.go, NewCleanCacheJob of pkg/builder/job.go.
use juicefs_operator.Base.{
  String, Bool, true, false, not, Option, none, some, List, [], ◌∷◌, ◌++◌, str_eq, if◌then◌else◌,
  is_some, filterb,
}
use juicefs_operator.Base.Text.{Text, codes, text_eq}
use juicefs_operator.Kube.{ApiError, not_found}
use juicefs_operator.CacheGroup.{CacheGroup}
use juicefs_operator.CacheGroup.Calls.{
  create_clean_job, Failure, api, Run, done, fail, answered, ◌>>◌,
}
use juicefs_operator.CacheGroup.Volumes.{
  Got, failed, found, Source, on_host, of_claim, other_source, Volume, is_cache_dir,
  delete_pvc_for_cache_group,
}

-- Is the volume of the claim to be cleaned by a job: not when the cache group controls it.
unfoldable pub to_clean : Got → Bool × Option Failure
to_clean (failed not_found) = (false, none)
to_clean (failed e) = (false, some (api e))
to_clean (found c) = (not c.controlled, none)

unfoldable pub judge : (get : String → Got) → Source → Bool × Option Failure
unfolding to_clean
judge get on_host = (true, none)
judge get (of_claim c) = to_clean (get c)
judge get other_source = (false, none)

unfoldable pub clean_volumes : (get : String → Got) → List Volume → List Volume × Option Failure
unfolding judge
clean_volumes get [] = ([], none)
clean_volumes get (v ∷ vs) =
    let (rest, f) = clean_volumes get vs in
    if not (is_cache_dir v) then (rest, f) else elim (judge get v.source).1 [
      | some e ↦ ([], some e)
      | none ↦ (if (judge get v.source).0 then v ∷ rest else rest, f)
    ]

pub record CleanJob : Type 0 where
  pub mounts : List (Text × Text)
  pub devices : List (Text × Text)
  pub commands : List Text

-- The devices of the worker's first container, by name with their paths.
abbrev device_of : Text → List (Text × Text) → Option (Text × Text)
device_of name [] = none
device_of name ((d, p) ∷ ds) =
    let rest = device_of name ds in if text_eq d name then some (d, p) else rest

abbrev mount_path : Text → Text
mount_path name = codes "/var/jfsCache/" ++ name

abbrev mount_command : Text → Text → Text
mount_command device name =
    codes "mkdir -p "
    ++ mount_path name
    ++ codes " && mount "
    ++ device
    ++ codes " "
    ++ mount_path name
    ++ codes " || exit 1"

unfoldable pub job_of : (file_system : Text) → List (Text × Text) → List Volume → CleanJob
job_of fs devices [] = record {
  mounts = [];
  devices = [];
  commands = (codes "rm -rf /var/jfsCache/*/" ++ fs) ∷ [];
}
job_of fs devices (v ∷ vs) =
    let job = job_of fs devices vs in
    elim (device_of v.name devices) [
      | none ↦ record job { mounts = (v.name, mount_path v.name) ∷ job.mounts }
      | some (d, p) ↦ record job {
        devices = (d, p) ∷ job.devices;
        commands = mount_command p v.name ∷ job.commands;
      }
    ]

unfoldable pub new_clean_cache_job : Text → List (Text × Text) → List Volume → Option CleanJob
unfolding job_of
new_clean_cache_job fs devices volumes = elim (filterb is_cache_dir volumes) [
  | [] ↦ none
  | v ∷ vs ↦ some (job_of fs devices (v ∷ vs))
]

-- The answers of a cleaning: `get_job` and `create_job` are about the clean job, `job_name` is what
-- GenCleanCacheJobName gives.
pub record CleanAnswers : Type 0 where
  pub get : String → Got
  pub get_again : String → Got
  pub delete : String → Option ApiError
  pub get_job : Option ApiError
  pub create_job : Option ApiError

pub record Worker : Type 0 where
  pub volumes : List Volume
  pub devices : List (Text × Text)
  pub job_name : String

unfoldable pub on_job : (got created : Option ApiError) → String → Run
on_job none created name = done
on_job (some not_found) created name = answered (create_clean_job name) created
on_job (some e) created name = fail (api e)

unfoldable pub run_job : CleanAnswers → String → Run
unfolding on_job
run_job a name = on_job a.get_job a.create_job name

unfoldable pub clean_by_job : Text → CleanAnswers → Worker → List Volume × Option Failure → Run
unfolding run_job new_clean_cache_job delete_pvc_for_cache_group
clean_by_job fs a w (vs, some f) = fail f
clean_by_job fs a w (vs, none) =
    (if is_some (new_clean_cache_job fs w.devices vs) then run_job a w.job_name else done)
    >> delete_pvc_for_cache_group a.get_again a.delete w.volumes

unfoldable pub clean_worker_cache : CacheGroup → Text → CleanAnswers → Worker → Run
unfolding clean_by_job delete_pvc_for_cache_group clean_volumes
clean_worker_cache cg fs a w =
    if not cg.spec.clean_cache
    then done
    else if is_some cg.spec.replicas
    then delete_pvc_for_cache_group a.get_again a.delete w.volumes
    else clean_by_job fs a w (clean_volumes a.get w.volumes)

-- What is read before the cleaning of a deleted group: the workers that are expected, or an error,
-- and the answer to the Get of the secret.
pub record FinalAnswers : Type 0 where
  pub expected : Option (List (Worker × CleanAnswers))
  pub get_secret : Option ApiError

-- The failure of one worker is logged only.
unfoldable pub clean_all : CacheGroup → Text → List (Worker × CleanAnswers) → Run
unfolding clean_worker_cache
clean_all cg fs [] = done
clean_all cg fs ((w, a) ∷ ws) = ((clean_worker_cache cg fs a w).0, none) >> clean_all cg fs ws

-- `expected` are the workers that the builder makes of the expected states.
unfoldable pub handle_finalizer : CacheGroup → FinalAnswers → Run
unfolding clean_all
handle_finalizer cg a = if not cg.spec.clean_cache then done else elim a.expected [
  | none ↦ fail (api ApiError.other_error)
  | some ws ↦ elim a.get_secret [
    | none ↦ clean_all cg (codes cg.status.file_system) ws
    | some not_found ↦
        if str_eq cg.status.file_system ""
        then done
        else clean_all cg (codes cg.status.file_system) ws
    | some e ↦ fail (api e)
  ]
]
