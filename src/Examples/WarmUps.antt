-- ===== src/Examples/WarmUps.antt =====
-- The theorems about warm-ups on concrete ones.
use juicefs_operator.WarmUp.Resolve.{
  resolve_warm_up_cache_group, reconcile, Lookup, Reconciled, Cluster, Item, Policy, missing, found,
}
use juicefs_operator.WarmUp.Resolve.Laws.{calls_of, outcome, Served, reconcile-Served}
use juicefs_operator.Base.Text.{join, has_prefix, split, text_eq, trim_space, cut, codes}
use juicefs_operator.Base.{
  any, ℕ, String, refl, ◌≡◌, ◌↔◌, Bool, true, false, Option, none, some, [], ◌∷◌, is_some,
}
use juicefs_operator.Examples.{cache_group}
use juicefs_operator.WarmUp.MountInfo.{
  MountInfo, adds, new_options, ignore_mount_opts, Worker, get_warm_up_mount_info,
}
use juicefs_operator.WarmUp.Command.{get_warm_up_command, path_join}
use juicefs_operator.Builder.{parse_options, text_contains}
use juicefs_operator.Pods.{must_parse_worker_mount_cmds}
use juicefs_operator.Base.Int.{ℤ}
use juicefs_operator.WarmUp.{Phase, job_complete, Condition, Status, Job, WarmUp, no_stats, blank}
use juicefs_operator.WarmUp.Once.{Answers, no_job, sync_once}
use juicefs_operator.WarmUp.Once.Laws.{starts}
use juicefs_operator.WarmUp.MountInfo.Mounted.{Spares, get_warm_up_mount_info-Spares}
use juicefs_operator.WarmUp.Cron.{CronAnswers, cron_job, no_cron_job, sync_cron}
use juicefs_operator.WarmUp.Cron.Laws.{writes, sync_cron-writes}

abbrev warm_up : Phase → WarmUp
warm_up phase = record {
  has_secret = false;
  cache_group_name = "cg";
  ttl_seconds_after_finished = some 60;
  status = blank phase "cg";
}

abbrev finished : Condition
finished = record { type = job_complete; status = "True"; last_transition = 90 }

abbrev new_job : Job
new_job = record {
  conditions = [];
  start_time = none;
  completion_time = none;
  created_at = 10;
  image = codes "juicedata/mount:ee-5.1.10";
}

abbrev ended_job : Job
ended_job = record new_job { conditions = finished ∷ []; completion_time = some 90 }

abbrev answers : Answers
answers = record {
  ttl_now = 100;
  delete_error = none;
  got = no_job;
  resolved = some "cg";
  built = new_job;
  create_error = none;
  group_found = some "cg";
  stats = no_stats;
  log = "";
  update_error = none;
}

abbrev no_bytes : String → Option ℤ
no_bytes _ = none

abbrev whole : ℤ → ℤ → String
whole a b = "100.00%"

abbrev some_time : ℕ → ℕ → String
some_time a b = "1m20s"

abbrev differs : Status → Status → Bool
differs a b = false

job_started :
    any starts (sync_once no_bytes whole some_time differs (warm_up Phase.unset) answers).calls
    ≡ true
unfolding sync_once
job_started = refl

abbrev cron_answers : CronAnswers
cron_answers = record {
  cron_resolved = some "cg";
  built_hash = "h";
  cron_got = no_cron_job;
  cron_create_error = none;
  cron_last_schedule = none;
  cron_last_successful = none;
  cron_update_error = none;
  status_error = none;
}

sync_cron-writes_example :
    (any writes (sync_cron (warm_up Phase.unset) cron_answers).calls ≡ true) ↔ (
      (is_some cron_answers.cron_resolved ≡ true)
      × (cron_answers.cron_got ≡ no_cron_job)
      × (is_some cron_answers.cron_create_error ≡ false))
sync_cron-writes_example = sync_cron-writes (warm_up Phase.unset) cron_answers

-- An existing cron job leaves the status as it was.
existing_kept :
    (sync_cron (warm_up Phase.running) (record cron_answers { cron_got = cron_job "h" })).calls ≡ []
unfolding sync_cron
existing_kept = refl

abbrev mounted_worker : Worker
mounted_worker = record {
  shell_command = codes "auth vol\nexec /sbin/mount.juicefs vol /mnt/jfs -o cache-dir=/d,subdir=a";
  v2_opts = none;
}

-- The worker's cache directory and the cache size of the resource are left out.
warm_up_mount :
    elim (get_warm_up_mount_info
      (codes "cg")
      (some mounted_worker)
      []
      (codes "cache-size=5" ∷ codes "subdir=b" ∷ codes "max-uploads = 9" ∷ [])) [
        | none ↦ []
        | some info ↦ info.auth_cmd ∷ info.vol_name ∷ info.mount_opts
      ]
    ≡ codes "auth vol"
      ∷ codes "vol"
      ∷ codes "cache-group=cg"
      ∷ codes "no-sharing"
      ∷ codes "cache-size=0"
      ∷ codes "log=/dev/stdout"
      ∷ codes "no-syslog"
      ∷ codes "subdir=a"
      ∷ codes "max-uploads=9"
      ∷ []
unfolding get_warm_up_mount_info must_parse_worker_mount_cmds has_prefix split cut text_contains
    ignore_mount_opts text_eq new_options parse_options trim_space adds
warm_up_mount = refl

get_warm_up_mount_info-Spares_example : Spares (codes "cg") (
    get_warm_up_mount_info
      (codes "cg")
      (some mounted_worker)
      []
      (codes "cache-size=5" ∷ codes "subdir=b" ∷ []))
get_warm_up_mount_info-Spares_example =
    get_warm_up_mount_info-Spares (codes "cg") (some mounted_worker) []
      (codes "cache-size=5" ∷ codes "subdir=b" ∷ []) refl (refl, (refl, tt))

abbrev mount_info : MountInfo
mount_info = record {
  auth_cmd = codes "auth";
  vol_name = codes "vol";
  mount_opts = codes "no-sharing" ∷ [];
}

warm_up_command :
    get_warm_up_command mount_info (codes "juicedata/mount:ee-5.2.11-x") (record {
      targets_from = some (record { files = codes "a//b/" ∷ codes "./c" ∷ []; file_path = [] });
      targets = [];
      options = codes " threads=4 " ∷ [];
    })
    ≡ codes "/bin/sh"
      ∷ codes "-c"
      ∷ codes
          "auth\n/sbin/mount.juicefs vol /mnt/jfs -o no-sharing\necho '/mnt/jfs/a/b\n/mnt/jfs/c' > /tmp/filelist.txt\ncd /mnt/jfs\nexec /usr/bin/juicefs warmup -f /tmp/filelist.txt --threads=4 --debug"
      ∷ []
unfolding get_warm_up_command join text_eq trim_space
warm_up_command = refl

-- A target may leave the mount point.
leaves_mount : path_join (codes "/mnt/jfs") (codes "../../etc") ≡ codes "/etc"
unfolding path_join join split text_eq
leaves_mount = refl

stays_in_mount : path_join (codes "/mnt/jfs") (codes "a/./b/../c") ≡ codes "/mnt/jfs/a/c"
unfolding path_join join split text_eq
stays_in_mount = refl

abbrev lookups : Cluster
lookups = record {
  secret = missing;
  by_name = missing;
  by_status = some (cache_group ∷ []);
  workers = λ _. some (mounted_worker ∷ []);
}

abbrev item : Item
item = record { warm_up = warm_up Phase.unset; image = []; policy = Policy.unset; deleting = false }

abbrev item_outcome : Lookup Item → Reconciled
item_outcome l = outcome no_bytes whole some_time differs true lookups answers cron_answers l

item_started : any starts (calls_of (item_outcome (found item))) ≡ true
unfolding reconcile resolve_warm_up_cache_group
item_started = refl

reconcile-Served_example :
    (i : Item) × (found item ≡ found i)
    × Served no_bytes whole some_time differs true lookups answers cron_answers i
reconcile-Served_example =
    reconcile-Served no_bytes whole some_time differs true lookups answers cron_answers (found item)
      item_started

-- With a secret but no image, nothing is started.
no_image :
    any starts (
      calls_of (
        item_outcome
          (found (record item { warm_up = record (warm_up Phase.unset) { has_secret = true } }))))
    ≡ false
unfolding reconcile
no_image = refl
