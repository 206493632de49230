-- ===== src/WarmUp/Jobs.antt =====
-- The jobs of warm-ups: NewWarmUpJob with genBaseJob and NewWarmUpCronJob of pkg/builder/job.go,
-- GenJobName and GenCronJobName of pkg/utils/job.go. Left out are constants (the owner reference, the
-- parallelism, the restart policy, the privilege, the hook before the stop, the container's name and
-- the labels of the job itself).
pub mod Parts
pub mod Stable
use juicefs_operator.Base.{
  String, ◌>>=◌, false, Option, none, some, List, [], ◌++◌, from_option, insert,
}
use juicefs_operator.Base.Text.{Text, codes}
use juicefs_operator.Builder.Worker.Parts.{EnvVar}
use juicefs_operator.Labels.{truncate_label_value, truncate_label_value_with_length}
use juicefs_operator.WarmUp.Command.{get_warm_up_command}
use juicefs_operator.WarmUp.MountInfo.{get_warm_up_mount_info}
use juicefs_operator.WarmUp.Jobs.Parts.{
  JobBuilder, JobVolume, Job, CronJob, Outside, or_text, or_else, of_pod, get_image,
  get_image_pull_secrets, get_image_pull_policy, get_envs, get_warmup_volumes,
}

unfoldable pub gen_job_name : (Text → Text) → Text → Option Text
unfolding truncate_label_value
gen_job_name cal_md5 name = truncate_label_value cal_md5 (codes "juicefs-warmup-" ++ name)

unfoldable pub gen_cron_job_name : (Text → Text) → Text → Option Text
unfolding truncate_label_value_with_length
gen_cron_job_name cal_md5 name =
    truncate_label_value_with_length cal_md5 (codes "juicefs-warmup-" ++ name) 52

module _ {V : Type 0} where
  abbrev template_labels : JobBuilder V → List (String × Text)
  template_labels j = insert "app.kubernetes.io/managed-by" (codes "juicefs-operator") j.wu.labels

  -- The job around its name, command, environment and volumes.
  unfoldable pub job_of :
      JobBuilder V
      → (name : Text) → (command : List Text) → List (EnvVar V)
      → List (Text × JobVolume V) × List (Text × Text)
      → Job V
  unfolding get_image get_image_pull_secrets get_image_pull_policy
  job_of j name command env (volumes, mounts) = record {
    name = name;
    namespace = j.wu.namespace;
    backoff_limit = j.wu.backoff_limit;
    labels = template_labels j;
    annotations = j.wu.annotations;
    tolerations = j.wu.tolerations;
    node_selector = j.wu.node_selector;
    service_account_name =
        or_text j.wu.service_account_name (of_pod (λ w. w.service_account_name) [] j);
    host_network = from_option (of_pod (λ w. w.host_network) false j) j.wu.host_network;
    scheduler_name = or_text j.wu.scheduler_name (of_pod (λ w. w.scheduler_name) [] j);
    dns_policy = or_else j.wu.dns_policy (of_pod (λ w. w.dns_policy) none j);
    affinity = or_else j.wu.affinity (of_pod (λ w. w.affinity) none j);
    enable_service_links =
        or_else j.wu.enable_service_links (of_pod (λ w. w.enable_service_links) none j);
    image_pull_secrets = get_image_pull_secrets j;
    image = get_image j;
    image_pull_policy = get_image_pull_policy j;
    command = command;
    env = env;
    resources = j.wu.resources;
    volumes = volumes;
    volume_mounts = mounts;
  }

  -- `none` is a panic, for a worker whose command has too few words.
  unfoldable pub new_warm_up_job : Outside V → JobBuilder V → Option (Job V)
  unfolding gen_job_name get_warm_up_mount_info get_warm_up_command get_image get_envs
      get_warmup_volumes job_of
  new_warm_up_job o j = gen_job_name o.cal_md5 j.wu.name >>= λ name.
      get_warm_up_mount_info j.cache_group_name
        (elim j.worker [ none ↦ none | some w ↦ some w.mount ]) j.secret j.wu.mount_options
      >>= λ info. get_warmup_volumes o j >>= λ volumes. some (
          job_of j name (get_warm_up_command info (get_image j) j.wu.targets)
            (get_envs o.parse_envs j) volumes)

  abbrev pub hashed_cron : Outside V → CronJob V → CronJob V
  hashed_cron o c = record c { hash = o.gen_hash c }

  unfoldable pub new_warm_up_cron_job : Outside V → JobBuilder V → Option (CronJob V)
  unfolding new_warm_up_job gen_cron_job_name
  new_warm_up_cron_job o j = new_warm_up_job o j >>= λ job.
      gen_cron_job_name o.cal_md5 j.wu.name >>= λ name. some (
        hashed_cron o (record {
          name = name;
          schedule = j.wu.schedule;
          suspend = j.wu.suspend;
          job = record job { name = [] };
          hash = [];
        }))
