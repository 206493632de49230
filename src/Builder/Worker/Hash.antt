-- ===== src/Builder/Worker/Hash.antt =====
-- The hash of a worker pod (newWorker of pkg/builder/cache_group_pod.go) against the join phase.
use juicefs_operator.Base.{
  bind_ind2, String, Bool, true, false, Option, none, some, List, [], str_eq, lookup, insert,
  if◌then◌else◌, ◌≡◌, refl, lookup-insert, arith,
}
use juicefs_operator.Base.Text.{Text, codes}
use juicefs_operator.Labels.{truncate_label_value}
use juicefs_operator.Builder.Worker.{
  Worker, Outside, new_worker, finished, hashed_v2, joined_opts, mount_opts_of, assemble,
}
use juicefs_operator.Builder.Worker.Parts.{
  Value, text, instant, PodBuilder, Gathered, gen_volumes, init_config, vol_name,
}

shadowed :
    (k : String) (b : Value) (s t : Text) (m : List (String × Value))
    → lookup k
        (insert "juicefs.io/backup-worker" b (insert "juicefs.io/worker-mount-opts" (text s) m))
      ≡ (if str_eq "juicefs.io/backup-worker" k
          then some b
          else if str_eq "juicefs.io/worker-mount-opts" k
          then some (text s)
          else lookup k (insert "juicefs.io/worker-mount-opts" (text t) m))
shadowed k b s t m = ground (
  arith,
  lookup-insert "juicefs.io/backup-worker" k b (insert "juicefs.io/worker-mount-opts" (text s) m),
  lookup-insert "juicefs.io/worker-mount-opts" k (text s) m,
  lookup-insert "juicefs.io/worker-mount-opts" k (text t) m,
)

module _ {V : Type 0} where
  abbrev pub joining : PodBuilder V → PodBuilder V
  joining p = record p { add_join_option = true }

  abbrev pub settled : PodBuilder V → PodBuilder V
  settled p = record p { add_join_option = false }

  -- The annotations of `a` are those of `b`, but for the start of the join phase and the options,
  -- which are those of `b` with the join option.
  abbrev pub JoinsOnly : Outside V → PodBuilder V → Worker V → Worker V → Type 0
  JoinsOnly o p a b =
      (opts : Text) × (lookup "juicefs.io/worker-mount-opts" b.annotations ≡ some (text opts))
      × ((k : String)
          → lookup k a.annotations ≡ (
              if str_eq "juicefs.io/backup-worker" k
              then some (instant o.now)
              else if str_eq "juicefs.io/worker-mount-opts" k
              then some (text (joined_opts (joining p) opts))
              else lookup k b.annotations))

  abbrev pub JoinsOnly? : Outside V → PodBuilder V → Option (Worker V) → Option (Worker V) → Type 0
  JoinsOnly? o p none none = Unit
  JoinsOnly? o p (some a) (some b) =
      (record a { annotations = [] } ≡ record b { annotations = [] }) × JoinsOnly o p a b
  JoinsOnly? o p _ _ = ⊥

  annotations_joined :
      (o : Outside V) (p : PodBuilder V) (opts : Text) (w : Worker V)
      → JoinsOnly o p (finished o (joining p) (some opts) w) (finished o (settled p) (some opts) w)
  unfolding finished
  annotations_joined o p opts w = (
    opts,
    lookup-insert "juicefs.io/worker-mount-opts" "juicefs.io/worker-mount-opts" (text opts)
        (insert "juicefs.io/worker-hash" (text (o.gen_hash w)) w.annotations),
    λ k.
        shadowed k (instant o.now) (joined_opts (joining p) opts) opts
          (insert "juicefs.io/worker-hash" (text (o.gen_hash w)) w.annotations),
  )

  assembled-JoinsOnly :
      (o : Outside V) (p : PodBuilder V) (dryrun : Bool) (label : Text) (parts : Gathered V)
      → JoinsOnly? o p
          (some (assemble o (joining p) dryrun true label parts))
          (some (assemble o (settled p) dryrun true label parts))
  unfolding assemble init_config vol_name
  assembled-JoinsOnly o p dryrun label parts =
      (refl, annotations_joined o p (mount_opts_of p parts) (hashed_v2 o p dryrun label parts))

  -- For an image that reads its options from the annotation, the worker that is built in the join
  -- phase and the one that is built out of it differ in two annotations only: the start of the phase,
  -- and the options, where the first has those of the second with the join option. Every other
  -- annotation, the hash included, and every other field is the same.
  pub new_worker-JoinsOnly :
      (o : Outside V) (p : PodBuilder V) (dryrun : Bool)
      → JoinsOnly? o p (new_worker o (joining p) dryrun true) (new_worker o (settled p) dryrun true)
  unfolding new_worker gen_volumes
  new_worker-JoinsOnly o p dryrun =
      bind_ind2 (JoinsOnly? o p) (truncate_label_value o.cal_md5 (codes p.cg.name)) _ _ tt
        (λ label _.
          bind_ind2 (JoinsOnly? o p) (gen_volumes o.show o.parse_configs p) _ _ tt
            (λ parts _. assembled-JoinsOnly o p dryrun label parts))
