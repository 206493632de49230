-- ===== src/Builder/Worker/Promise.antt =====
-- The worker pods of pkg/builder/cache_group_pod.go keep what the update of the workers
-- (internal/controller/cachegroup_worker_lifecycle.go) takes from a WorkerBuilder.
use juicefs_operator.Kube.{Pod, PodPhase, EnvVar}
use juicefs_operator.CacheGroup.{CacheGroup, Template}
use juicefs_operator.CacheGroup.Update.{WorkerBuilder}
use juicefs_operator.Builder.Worker.{
  v1_worker_hash, joined_opts, Worker, Outside, new_worker, new_cache_group_worker, finished,
  hashed, hashed_v2, assemble, supports_restart_args, mount_opts_of,
}
use juicefs_operator.Builder.Worker.Script.{script_of}
use juicefs_operator.Builder.Worker.Parts.{
  text_of, phased, EnvVar as BuilderEnv, plain, Value, text, instant, PodBuilder, Spec, Gathered,
  gen_volumes,
}
use juicefs_operator.Base.{
  copy_into, bind_ind, subst, contains, ◌∷◌, ℕ, String, Bool, true, false, not, ◌&&◌, Option, none,
  some, List, [], ◌≡◌, refl, ap, lookup, insert, lookup-insert, is_some, if◌then◌else◌,
}
use juicefs_operator.Base.Text.{Text, codes}
use juicefs_operator.Labels.{truncate_label_value}

abbrev instant_of : Option Value → Option ℕ
instant_of (some (instant t)) = some t
instant_of _ = none

module _ {V : Type 0} where
  abbrev pub joined_at : Worker V → Option ℕ
  joined_at w = instant_of (lookup "juicefs.io/backup-worker" w.annotations)

  abbrev pub Marked : Bool → Option (Worker V) → Type 0
  Marked join none = Unit
  Marked join (some w) = is_some (joined_at w) ≡ join

  -- The template does not write the annotation of the join phase.
  abbrev pub Unmarked : Spec V → Type 0
  Unmarked spec = lookup "juicefs.io/backup-worker" (copy_into [] spec.annotations) ≡ none

phased-instant :
    (join : Bool) (now : ℕ) (m : List (String × Value))
    → lookup "juicefs.io/backup-worker" m ≡ none
    → is_some (instant_of (lookup "juicefs.io/backup-worker" (phased join (instant now) m))) ≡ join
phased-instant false now m h = rw h refl
phased-instant true now m h =
    ap (λ x. is_some (instant_of x))
      (lookup-insert "juicefs.io/backup-worker" "juicefs.io/backup-worker" (instant now) m)

marked_v2 :
    (join : Bool) (now : ℕ) (a b c d : Value) (m : List (String × Value))
    → lookup "juicefs.io/backup-worker" m ≡ none
    → is_some (
        instant_of (
          lookup "juicefs.io/backup-worker" (
            phased join (instant now) (
              insert "juicefs.io/worker-mount-opts" a (
                insert "juicefs.io/worker-hash" b (
                  insert "juicefs.io/worker-mount-opts" c
                    (insert "juicefs.io/worker-template" d m)))))))
      ≡ join
marked_v2 join now a b c d m h =
    phased-instant join now
      (insert "juicefs.io/worker-mount-opts" a (
        insert "juicefs.io/worker-hash" b
          (insert "juicefs.io/worker-mount-opts" c (insert "juicefs.io/worker-template" d m))))
      (simp lookup-insert h)

marked_v1 :
    (join : Bool) (now : ℕ) (b : Value) (m : List (String × Value))
    → lookup "juicefs.io/backup-worker" m ≡ none
    → is_some (
        instant_of (
          lookup "juicefs.io/backup-worker"
            (phased join (instant now) (insert "juicefs.io/worker-hash" b m))))
      ≡ join
marked_v1 join now b m h =
    phased-instant join now (insert "juicefs.io/worker-hash" b m) (simp lookup-insert h)

module _ {V : Type 0} where
  assembled-Marked :
      (o : Outside V) (p : PodBuilder V) (dryrun v2 : Bool) (label : Text) (parts : Gathered V)
      → Unmarked p.spec
      → is_some (joined_at (assemble o p dryrun v2 label parts)) ≡ p.add_join_option
  unfolding assemble finished hashed hashed_v2
  assembled-Marked o p dryrun true label parts h =
      marked_v2 p.add_join_option o.now (text (joined_opts p (mount_opts_of p parts)))
        (text (o.gen_hash (hashed_v2 o p dryrun label parts))) (text (mount_opts_of p parts))
        (text (codes "v2")) (copy_into [] p.spec.annotations) h
  assembled-Marked o p dryrun false label parts h =
      marked_v1 p.add_join_option o.now (text (o.gen_hash (hashed o p dryrun label parts)))
        (copy_into [] p.spec.annotations) h

  -- A worker that is built carries the start of the join phase exactly when the builder was asked for
  -- the join option and builds no dry run, if its template does not write that annotation.
  pub new_cache_group_worker-Marked :
      (o : Outside V) (p : PodBuilder V) (dryrun : Bool)
      → Unmarked p.spec
      → Marked (not dryrun && p.add_join_option) (new_cache_group_worker o p dryrun)
  unfolding new_cache_group_worker new_worker
  new_cache_group_worker-Marked o p dryrun h =
      let p' = record p { add_join_option = not dryrun && p.add_join_option } in
      let v2 = supports_restart_args p.spec.image in
      bind_ind (Marked (not dryrun && p.add_join_option))
        (truncate_label_value o.cal_md5 (codes p.cg.name)) _ tt
        (λ label _.
          bind_ind (Marked (not dryrun && p.add_join_option))
            (gen_volumes o.show o.parse_configs p') _ tt
            (λ parts _. assembled-Marked o p' dryrun v2 label parts h))

abbrev own_annotations : List String
own_annotations =
    "juicefs.io/backup-worker" ∷ "juicefs.io/waiting-delete-worker" ∷ "juicefs.io/worker-template"
    ∷ "juicefs.io/worker-mount-opts" ∷ "juicefs.io/worker-hash" ∷ []

module _ {V : Type 0} (decode : Text → String) (o : Outside V)
    (setup : CacheGroup → String → Template → PodBuilder V) where
  -- The builder for one worker, as the controller makes it.
  abbrev pub builder_for : CacheGroup → String → Template → Bool → PodBuilder V
  builder_for cg node t join = record (setup cg node t) { add_join_option = join }

  abbrev instant_at : String → Worker V → Option ℕ
  instant_at k w = instant_of (lookup k w.annotations)

  abbrev text_at : String → Worker V → Text
  text_at k w = text_of (lookup k w.annotations)

  abbrev envs_of : List (BuilderEnv V) → List EnvVar
  envs_of [] = []
  envs_of (e ∷ es) =
      record { name = decode e.name; value = elim e.source [ plain v ↦ decode v | _ ↦ "" ] }
      ∷ envs_of es

  -- The annotations that the operator itself does not write; none of them is an instant.
  abbrev others : List (String × Value) → List (String × String)
  others [] = []
  others ((k, v) ∷ m) =
      let rest = others m in
      if contains own_annotations k then rest else (k, decode (text_of (some v))) ∷ rest

  -- A new worker as the controller sees it.
  abbrev pub as_pod : Worker V → Pod
  as_pod w = record {
    name = w.name;
    node_name = w.node_name;
    annotations = record {
      backup_worker = instant_at "juicefs.io/backup-worker" w;
      waiting_delete = instant_at "juicefs.io/waiting-delete-worker" w;
      template = decode (text_at "juicefs.io/worker-template" w);
      mount_opts = text_at "juicefs.io/worker-mount-opts" w;
      worker_hash = decode (text_at "juicefs.io/worker-hash" w);
      extra = others w.annotations;
    };
    conditions = [];
    phase = PodPhase.unset;
    deleting = false;
    containers = record { name = "juicefs-cg-worker"; env = envs_of w.env } ∷ [];
    image = w.image;
    command = script_of w.command;
  }

  module _
      (builds : (cg : CacheGroup) (node : String) (t : Template) (join : Bool)
        → (w : Worker V) × (new_cache_group_worker o (builder_for cg node t join) false ≡ some w))
      (unmarked : (cg : CacheGroup) (node : String) (t : Template)
        → Unmarked (setup cg node t).spec) where
    pub built_joins :
        (cg : CacheGroup) (node : String) (t : Template) (join : Bool)
        → is_some (joined_at (builds cg node t join).0) ≡ join
    built_joins cg node t join =
        subst (Marked join) (builds cg node t join).1
          (new_cache_group_worker-Marked o (builder_for cg node t join) false (unmarked cg node t))

    -- Where the builder always succeeds and no template writes the annotation of the join phase, it is a
    -- WorkerBuilder.
    abbrev pub worker_builder : WorkerBuilder
    worker_builder = record {
      build = λ cg node t join. as_pod (builds cg node t join).0;
      v1_worker_hash = λ cg node t join.
          decode (elim (v1_worker_hash o (builder_for cg node t join)) [
            | none ↦ []
            | some h ↦ text_of h
          ]);
      joins = built_joins;
    }
