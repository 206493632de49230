-- ===== src/Builder/Worker/ReadBack.antt =====
-- What the operator reads back from a worker that it has built (newWorker of
-- pkg/builder/cache_group_pod.go, ParseWorkerMountInfo of pkg/utils/worker.go).
use juicefs_operator.Base.{
  copy_into, bind_ind, str_eq, true, false, some, List, [], ◌∷◌, ◌++◌, ◌≡◌, refl, ap, ◌∙◌, Bool,
  lookup, Option, none, if◌then◌else◌, String, insert, lookup-insert,
}
use juicefs_operator.Base.Text.{Text, codes, join, split, text_eq}
use juicefs_operator.Labels.{truncate_label_value}
use juicefs_operator.Base.Split.{split-free, split-word}
use juicefs_operator.Pods.{must_parse_worker_mount_cmds}
use juicefs_operator.Builder.Commands.{gen_auth_cmds}
use juicefs_operator.WarmUp.MountInfo.{parse_worker_mount_info, Worker as MountWorker}
use juicefs_operator.Builder.Worker.{
  new_worker, hashed, gen_commands, Worker, Outside, finished, hashed_v2, mount_opts_of,
  joined_opts, assemble, gen_commands_v2, shell,
}
use juicefs_operator.Builder.Worker.Parts.{
  text_of, phased, Value, text, instant, PodBuilder, Gathered, gen_volumes, vol_name, init_config,
  scripts,
}
use juicefs_operator.Builder.Worker.Script.{IsWord, script_of, must_parse-gen_shell_commands}

abbrev opts_of : Option Value → Option Value → Option Text
opts_of (some (text t)) opts = if text_eq t (codes "v2") then some (text_of opts) else none
opts_of _ opts = none

parse_v2 :
    (w : MountWorker) (vol opts : Text) (inline : List Text)
    → must_parse_worker_mount_cmds w.shell_command ≡ some (vol, inline)
    → w.v2_opts ≡ some opts
    → parse_worker_mount_info w ≡ some (vol, split b',' opts)
unfolding parse_worker_mount_info
parse_v2 w vol opts inline e f = rw (e, parse_worker_mount_info) (rw f refl)

parse_v1 :
    (w : MountWorker) (vol : Text) (inline : List Text)
    → must_parse_worker_mount_cmds w.shell_command ≡ some (vol, inline)
    → w.v2_opts ≡ none
    → parse_worker_mount_info w ≡ some (vol, inline)
unfolding parse_worker_mount_info
parse_v1 w vol inline e f = rw (e, parse_worker_mount_info) (rw f refl)

abbrev written_annotations :
    Value → Value → Value → Value → List (String × Value) → List (String × Value)
written_annotations s h t v m = insert "juicefs.io/worker-mount-opts" s (
    insert "juicefs.io/worker-hash" h
      (insert "juicefs.io/worker-mount-opts" t (insert "juicefs.io/worker-template" v m)))

written-template :
    (s h t v : Value) (m : List (String × Value))
    → lookup "juicefs.io/worker-template" (written_annotations s h t v m) ≡ some v
written-template s h t v m = simp lookup-insert

phased-lookup :
    (join : Bool) (k : String) (b : Value) (m : List (String × Value))
    → str_eq "juicefs.io/backup-worker" k ≡ false
    → lookup k (phased join b m) ≡ lookup k m
phased-lookup false k b m h = refl
phased-lookup true k b m h = lookup-insert "juicefs.io/backup-worker" k b m ∙ rw h refl

v2_opts-written :
    (join : Bool) (b h t : Value) (opts : Text) (m : List (String × Value))
    → opts_of
        (lookup "juicefs.io/worker-template"
          (phased join b (written_annotations (text opts) h t (text (codes "v2")) m)))
        (lookup "juicefs.io/worker-mount-opts"
          (phased join b (written_annotations (text opts) h t (text (codes "v2")) m)))
      ≡ some opts
unfolding text_eq
v2_opts-written join b h t opts m =
    let all = written_annotations (text opts) h t (text (codes "v2")) m in
    ap (λ x. opts_of x (lookup "juicefs.io/worker-mount-opts" (phased join b all)))
      (phased-lookup join "juicefs.io/worker-template" b all refl
        ∙ written-template (text opts) h t (text (codes "v2")) m)
    ∙ ap (λ x. some (text_of x))
        (phased-lookup join "juicefs.io/worker-mount-opts" b all refl
          ∙ lookup-insert "juicefs.io/worker-mount-opts" "juicefs.io/worker-mount-opts" (text opts)
              (insert "juicefs.io/worker-hash" h (
                insert "juicefs.io/worker-mount-opts" t
                  (insert "juicefs.io/worker-template" (text (codes "v2")) m))))

v2_opts-absent :
    (join : Bool) (b h : Value) (opts : Option Value) (m : List (String × Value))
    → lookup "juicefs.io/worker-template" m ≡ none
    → opts_of
        (lookup "juicefs.io/worker-template" (phased join b (insert "juicefs.io/worker-hash" h m)))
        opts
      ≡ none
v2_opts-absent join b h opts m n =
    ap (λ x. opts_of x opts)
      (phased-lookup join "juicefs.io/worker-template" b (insert "juicefs.io/worker-hash" h m) refl
        ∙ lookup-insert "juicefs.io/worker-hash" "juicefs.io/worker-template" h m
        ∙ n)

module _ {V : Type 0} where
  -- A pod as ParseWorkerMountInfo reads it.
  abbrev pub as_worker : Worker V → MountWorker
  as_worker w = record {
    shell_command = script_of w.command;
    v2_opts =
        opts_of (lookup "juicefs.io/worker-template" w.annotations)
          (lookup "juicefs.io/worker-mount-opts" w.annotations);
  }

  -- The volume and the options of the worker are those that the builder put in.
  abbrev pub ReadsBack : Outside V → PodBuilder V → Option (Worker V) → Type 0
  ReadsBack o p none = Unit
  ReadsBack o p (some w) =
      (parts : Gathered V) × (gen_volumes o.show o.parse_configs p ≡ some parts)
      × (parse_worker_mount_info (as_worker w)
          ≡ some (vol_name p, split b',' (joined_opts p (mount_opts_of p parts))))

  assembled-v2 :
      (o : Outside V) (p : PodBuilder V) (dryrun : Bool) (label : Text) (parts : Gathered V)
      → IsWord (vol_name p)
      → parse_worker_mount_info (as_worker (assemble o p dryrun true label parts))
        ≡ some (vol_name p, split b',' (joined_opts p (mount_opts_of p parts)))
  unfolding assemble finished hashed_v2 gen_commands_v2 shell
  assembled-v2 o p dryrun label parts v =
      parse_v2 (as_worker (assemble o p dryrun true label parts)) (vol_name p)
        (joined_opts p (mount_opts_of p parts)) _
        (must_parse-gen_shell_commands (vol_name p)
          (gen_auth_cmds (vol_name p) (init_config p) p.secret) (scripts parts.device_mounts)
          (codes "-o \"$(cat /etc/juicefs-worker/mount-opts)\"") _ _ _ v refl refl)
        (v2_opts-written p.add_join_option (instant o.now)
          (text (o.gen_hash (hashed_v2 o p dryrun label parts))) (text (mount_opts_of p parts))
          (joined_opts p (mount_opts_of p parts)) (hashed o p dryrun label parts).annotations)

  assembled-v1 :
      (o : Outside V) (p : PodBuilder V) (dryrun : Bool) (label : Text) (parts : Gathered V)
      → IsWord (vol_name p)
      → IsWord (joined_opts p (mount_opts_of p parts))
      → lookup "juicefs.io/worker-template" (copy_into [] p.spec.annotations) ≡ none
      → parse_worker_mount_info (as_worker (assemble o p dryrun false label parts))
        ≡ some (vol_name p, split b',' (joined_opts p (mount_opts_of p parts)))
  unfolding assemble finished hashed gen_commands shell
  assembled-v1 o p dryrun label parts v w n =
      parse_v1 (as_worker (assemble o p dryrun false label parts)) (vol_name p) _
        (must_parse-gen_shell_commands (vol_name p)
          (gen_auth_cmds (vol_name p) (init_config p) p.secret) (scripts parts.device_mounts)
          (codes "-o " ++ joined_opts p (mount_opts_of p parts)) (codes "-o")
          (joined_opts p (mount_opts_of p parts)) [] v w.no_break
          (split-word b' ' (codes "-o") (joined_opts p (mount_opts_of p parts)) refl
            ∙ ap (λ r. codes "-o" ∷ r)
                (split-free b' ' (joined_opts p (mount_opts_of p parts)) w.no_space)))
        (v2_opts-absent p.add_join_option (instant o.now)
          (text (o.gen_hash (hashed o p dryrun label parts)))
          (lookup "juicefs.io/worker-mount-opts"
            (assemble o p dryrun false label parts).annotations)
          (copy_into [] p.spec.annotations) n)

  built-ReadsBack :
      (o : Outside V) (p : PodBuilder V) (dryrun v2 : Bool)
      → ((label : Text) (parts : Gathered V)
          → gen_volumes o.show o.parse_configs p ≡ some parts
          → parse_worker_mount_info (as_worker (assemble o p dryrun v2 label parts))
            ≡ some (vol_name p, split b',' (joined_opts p (mount_opts_of p parts))))
      → ReadsBack o p (new_worker o p dryrun v2)
  unfolding new_worker
  built-ReadsBack o p dryrun v2 f =
      bind_ind (ReadsBack o p) (truncate_label_value o.cal_md5 (codes p.cg.name)) _ tt (λ label _.
        bind_ind (ReadsBack o p) (gen_volumes o.show o.parse_configs p) _ tt
          (λ parts e. (parts, e, f label parts e)))

  -- A worker whose options stand in an annotation is read back as it was built, whatever its options
  -- are: the volume, whose name has neither a space nor a line break, and the options of the builder
  -- with the join option where it was asked for.
  pub new_worker-ReadsBack :
      (o : Outside V) (p : PodBuilder V) (dryrun : Bool)
      → IsWord (vol_name p)
      → ReadsBack o p (new_worker o p dryrun true)
  new_worker-ReadsBack o p dryrun v =
      built-ReadsBack o p dryrun true (λ label parts e. assembled-v2 o p dryrun label parts v)

  -- A worker whose options stand in its command is read back so too, if its options have neither a
  -- space nor a line break and its template does not set the annotation of the other kind of worker.
  pub new_worker_v1-ReadsBack :
      (o : Outside V) (p : PodBuilder V) (dryrun : Bool)
      → IsWord (vol_name p)
      → ((parts : Gathered V)
          → gen_volumes o.show o.parse_configs p ≡ some parts
          → IsWord (joined_opts p (mount_opts_of p parts)))
      → lookup "juicefs.io/worker-template" (copy_into [] p.spec.annotations) ≡ none
      → ReadsBack o p (new_worker o p dryrun false)
  new_worker_v1-ReadsBack o p dryrun v w n =
      built-ReadsBack o p dryrun false
        (λ label parts e. assembled-v1 o p dryrun label parts v (w parts e) n)
