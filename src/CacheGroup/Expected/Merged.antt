-- ===== src/CacheGroup/Expected/Merged.antt =====
-- The overwrites of a worker template, merged in turn (MergeCacheGroupWorkerTemplate and
-- parseExpectStateWithNode), against the last overwrite that gives a field.
use juicefs_operator.Base.{
  String, ◌≡◌, refl, Option, none, some, List, [], ◌∷◌, filterb, map, arith, Bool-cases, inl, inr,
}
use juicefs_operator.Scheduler.{Node}
use juicefs_operator.CacheGroup.Expected.{
  WorkerTemplate, Overwrite, or_else, or_string, merge_cache_group_worker_template, applies,
  overwritten,
}

or_else_assoc : {A : Type 0} (a b c : Option A) → or_else (or_else a b) c ≡ or_else a (or_else b c)
or_else_assoc none b c = refl
or_else_assoc (some a) b c = refl

or_string_assoc : (a b c : String) → or_string (or_string a b) c ≡ or_string a (or_string b c)
or_string_assoc a b c = ground arith

-- The fields of a template that the merge covers: all but labels, annotations, the node selector, pull
-- secrets and the pull policy.
pub record Covered (V : Type 0) : Type 0 where
  pub service_account_name : String
  pub scheduler_name : String
  pub image : String
  pub enable_service_links : Option V
  pub host_network : Option V
  pub tolerations : Option V
  pub env : Option V
  pub resources : Option V
  pub liveness_probe : Option V
  pub readiness_probe : Option V
  pub startup_probe : Option V
  pub security_context : Option V
  pub lifecycle : Option V
  pub volume_mounts : Option V
  pub volume_devices : Option V
  pub volumes : Option V
  pub opts : Option V
  pub dns_policy : Option V
  pub cache_dirs : Option V
  pub affinity : Option V

module _ {V : Type 0} where
  abbrev pub covered : WorkerTemplate V → Covered V
  covered t = record {
    service_account_name = t.service_account_name;
    scheduler_name = t.scheduler_name;
    image = t.image;
    enable_service_links = t.enable_service_links;
    host_network = t.host_network;
    tolerations = t.tolerations;
    env = t.env;
    resources = t.resources;
    liveness_probe = t.liveness_probe;
    readiness_probe = t.readiness_probe;
    startup_probe = t.startup_probe;
    security_context = t.security_context;
    lifecycle = t.lifecycle;
    volume_mounts = t.volume_mounts;
    volume_devices = t.volume_devices;
    volumes = t.volumes;
    opts = t.opts;
    dns_policy = t.dns_policy;
    cache_dirs = t.cache_dirs;
    affinity = t.affinity;
  }

  -- The value of a field in the last template that gives it.
  abbrev last_given : (WorkerTemplate V → Option V) → List (WorkerTemplate V) → Option V
  last_given get [] = none
  last_given get (o ∷ os) = or_else (last_given get os) (get o)

  abbrev last_named : (WorkerTemplate V → String) → List (WorkerTemplate V) → String
  last_named get [] = ""
  last_named get (o ∷ os) = or_string (last_named get os) (get o)

  -- Each field by itself: from the last template that gives it, else from `t`.
  abbrev pub by_last : List (WorkerTemplate V) → WorkerTemplate V → Covered V
  by_last os t = record {
    service_account_name =
        or_string (last_named (λ (o : WorkerTemplate V). o.service_account_name) os)
          t.service_account_name;
    scheduler_name =
        or_string (last_named (λ (o : WorkerTemplate V). o.scheduler_name) os) t.scheduler_name;
    image = or_string (last_named (λ (o : WorkerTemplate V). o.image) os) t.image;
    enable_service_links =
        or_else (last_given (λ (o : WorkerTemplate V). o.enable_service_links) os)
          t.enable_service_links;
    host_network =
        or_else (last_given (λ (o : WorkerTemplate V). o.host_network) os) t.host_network;
    tolerations = or_else (last_given (λ (o : WorkerTemplate V). o.tolerations) os) t.tolerations;
    env = or_else (last_given (λ (o : WorkerTemplate V). o.env) os) t.env;
    resources = or_else (last_given (λ (o : WorkerTemplate V). o.resources) os) t.resources;
    liveness_probe =
        or_else (last_given (λ (o : WorkerTemplate V). o.liveness_probe) os) t.liveness_probe;
    readiness_probe =
        or_else (last_given (λ (o : WorkerTemplate V). o.readiness_probe) os) t.readiness_probe;
    startup_probe =
        or_else (last_given (λ (o : WorkerTemplate V). o.startup_probe) os) t.startup_probe;
    security_context =
        or_else (last_given (λ (o : WorkerTemplate V). o.security_context) os) t.security_context;
    lifecycle = or_else (last_given (λ (o : WorkerTemplate V). o.lifecycle) os) t.lifecycle;
    volume_mounts =
        or_else (last_given (λ (o : WorkerTemplate V). o.volume_mounts) os) t.volume_mounts;
    volume_devices =
        or_else (last_given (λ (o : WorkerTemplate V). o.volume_devices) os) t.volume_devices;
    volumes = or_else (last_given (λ (o : WorkerTemplate V). o.volumes) os) t.volumes;
    opts = or_else (last_given (λ (o : WorkerTemplate V). o.opts) os) t.opts;
    dns_policy = or_else (last_given (λ (o : WorkerTemplate V). o.dns_policy) os) t.dns_policy;
    cache_dirs = or_else (last_given (λ (o : WorkerTemplate V). o.cache_dirs) os) t.cache_dirs;
    affinity = or_else (last_given (λ (o : WorkerTemplate V). o.affinity) os) t.affinity;
  }

  by_last_step :
      (o t : WorkerTemplate V) (os : List (WorkerTemplate V))
      → by_last (o ∷ os) t ≡ by_last os (merge_cache_group_worker_template t o)
  unfolding merge_cache_group_worker_template
  by_last_step o t os = λ i. record {
    service_account_name =
        or_string_assoc (last_named (λ (x : WorkerTemplate V). x.service_account_name) os)
          o.service_account_name t.service_account_name i;
    scheduler_name =
        or_string_assoc (last_named (λ (x : WorkerTemplate V). x.scheduler_name) os)
          o.scheduler_name t.scheduler_name i;
    image = or_string_assoc (last_named (λ (x : WorkerTemplate V). x.image) os) o.image t.image i;
    enable_service_links =
        or_else_assoc (last_given (λ (x : WorkerTemplate V). x.enable_service_links) os)
          o.enable_service_links t.enable_service_links i;
    host_network =
        or_else_assoc (last_given (λ (x : WorkerTemplate V). x.host_network) os) o.host_network
          t.host_network i;
    tolerations =
        or_else_assoc (last_given (λ (x : WorkerTemplate V). x.tolerations) os) o.tolerations
          t.tolerations i;
    env = or_else_assoc (last_given (λ (x : WorkerTemplate V). x.env) os) o.env t.env i;
    resources =
        or_else_assoc (last_given (λ (x : WorkerTemplate V). x.resources) os) o.resources
          t.resources i;
    liveness_probe =
        or_else_assoc (last_given (λ (x : WorkerTemplate V). x.liveness_probe) os) o.liveness_probe
          t.liveness_probe i;
    readiness_probe =
        or_else_assoc (last_given (λ (x : WorkerTemplate V). x.readiness_probe) os)
          o.readiness_probe t.readiness_probe i;
    startup_probe =
        or_else_assoc (last_given (λ (x : WorkerTemplate V). x.startup_probe) os) o.startup_probe
          t.startup_probe i;
    security_context =
        or_else_assoc (last_given (λ (x : WorkerTemplate V). x.security_context) os)
          o.security_context t.security_context i;
    lifecycle =
        or_else_assoc (last_given (λ (x : WorkerTemplate V). x.lifecycle) os) o.lifecycle
          t.lifecycle i;
    volume_mounts =
        or_else_assoc (last_given (λ (x : WorkerTemplate V). x.volume_mounts) os) o.volume_mounts
          t.volume_mounts i;
    volume_devices =
        or_else_assoc (last_given (λ (x : WorkerTemplate V). x.volume_devices) os) o.volume_devices
          t.volume_devices i;
    volumes =
        or_else_assoc (last_given (λ (x : WorkerTemplate V). x.volumes) os) o.volumes t.volumes i;
    opts = or_else_assoc (last_given (λ (x : WorkerTemplate V). x.opts) os) o.opts t.opts i;
    dns_policy =
        or_else_assoc (last_given (λ (x : WorkerTemplate V). x.dns_policy) os) o.dns_policy
          t.dns_policy i;
    cache_dirs =
        or_else_assoc (last_given (λ (x : WorkerTemplate V). x.cache_dirs) os) o.cache_dirs
          t.cache_dirs i;
    affinity =
        or_else_assoc (last_given (λ (x : WorkerTemplate V). x.affinity) os) o.affinity t.affinity
          i;
  }

  -- The templates of the overwrites that apply to a node, in their order.
  abbrev pub applied : Node → List (Overwrite V) → List (WorkerTemplate V)
  applied n os = map (λ (o : Overwrite V). o.template) (filterb (λ o. applies o n) os)

  -- In the template of a node, each of the twenty fields that MergeCacheGroupWorkerTemplate merges has
  -- the value of the last overwrite that applies to the node and gives the field, and the template's
  -- own where none does. Nothing is said of labels, annotations, the node selector, pull secrets and
  -- the pull policy, which it does not merge.
  pub overwritten-by_last :
      (n : Node) (os : List (Overwrite V)) (t : WorkerTemplate V)
      → covered (overwritten n os t) ≡ by_last (applied n os) t
  unfolding overwritten
  overwritten-by_last n [] t = refl
  overwritten-by_last n (o ∷ os) t = elim (Bool-cases (applies o n)) [
    | inl e ↦
        let m = merge_cache_group_worker_template t o.template in
        cc (e, overwritten-by_last n os m, by_last_step o.template t (applied n os))
    | inr e ↦ cc (e, overwritten-by_last n os t)
  ]
