-- ===== src/WarmUp/MountInfo/Mounted.antt =====
-- The mount options of a warm-up (getWarmUpMountInfo of pkg/builder/job.go) once they are joined by
-- commas.
use juicefs_operator.Base.{
  subst, sym, not, String, Bool, true, false, Option, none, some, List, [], ◌∷◌, ◌++◌, All,
  All-append, take, drop, if_ind, ap, ◌≡◌, refl,
}
use juicefs_operator.Base.Text.{Text, codes, text_eq, split, join, last_line, has_prefix}
use juicefs_operator.Base.Split.{IsFree, split-join, split-All-IsFree}
use juicefs_operator.Builder.Mounted.{PairIsFree, append-IsFree, parse_options-free}
use juicefs_operator.Pods.{must_parse_worker_mount_cmds}
use juicefs_operator.Builder.{parse_options, text_contains}
use juicefs_operator.Builder.Options.{parse_options-IsName}
use juicefs_operator.WarmUp.MountInfo.{
  ignore_mount_opts, Worker, MountInfo, key_of, keys_of, kept_opts, new_options, option_text,
  option_texts, adds, append_warmup_mount_opts, first_opts, get_warm_up_mount_info,
  parse_worker_mount_info, first_line,
}
use juicefs_operator.WarmUp.MountInfo.Spared.{IsSpared, kept_opts-IsSpared, new_options-IsSpared}

-- The options of a worker come from a text that was split at its commas.
abbrev OptsFree : Option (Text × List Text) → Type 0
OptsFree none = Unit
OptsFree (some p) = All (IsFree b',') p.1

words-OptsFree :
    (words : List Text)
    → OptsFree (elim words [
      | _ ∷ _ ∷ vol_name ∷ _ ∷ _ ∷ options ∷ _ ↦ some (vol_name, split b',' options)
      | _ ↦ none
    ])
words-OptsFree (a ∷ b ∷ vol_name ∷ d ∷ e ∷ options ∷ rest) = split-All-IsFree b',' options
words-OptsFree _ = tt

mount_cmds-OptsFree : (cmd : Text) → OptsFree (must_parse_worker_mount_cmds cmd)
unfolding must_parse_worker_mount_cmds
mount_cmds-OptsFree [] = tt
mount_cmds-OptsFree (c ∷ s) =
    let cmds = last_line (split b'\n' (c ∷ s)) in
    if_ind OptsFree (not (has_prefix (codes "exec") cmds)) (λ _. tt)
      (λ _. words-OptsFree (split b' ' cmds))

v2_case :
    (o : Option (Text × List Text)) (v2 : Option Text)
    → OptsFree o
    → OptsFree (elim o [
      | none ↦ none
      | some p ↦ elim v2 [ none ↦ some p | some opts ↦ some (p.0, split b',' opts) ]
    ])
v2_case none v2 h = tt
v2_case (some p) none h = h
v2_case (some p) (some opts) h = split-All-IsFree b',' opts

parsed-OptsFree : (w : Worker) → OptsFree (parse_worker_mount_info w)
unfolding parse_worker_mount_info
parsed-OptsFree w =
    v2_case (must_parse_worker_mount_cmds w.shell_command) w.v2_opts
      (mount_cmds-OptsFree w.shell_command)

kept_opts-IsFree : (os : List Text) → All (IsFree b',') os → All (IsFree b',') (kept_opts os)
unfolding kept_opts
kept_opts-IsFree [] h = tt
kept_opts-IsFree (o ∷ os) (h, hs) =
    if_ind (All (IsFree b',')) (text_contains ignore_mount_opts (key_of o))
      (λ _. kept_opts-IsFree os hs) (λ _. (h, kept_opts-IsFree os hs))

option_text-IsFree : (o : Text × Text) → PairIsFree o → IsFree b',' (option_text o)
option_text-IsFree (k, v) (hk, hv) =
    if_ind (IsFree b',') (text_eq v []) (λ _. hk) (λ _. append-IsFree b',' k (b'=' ∷ v) hk hv)

new_case :
    (o : Text × Text) (b : Bool) (xs ys : List (Text × Text))
    → PairIsFree o
    → All (IsFree b',') (option_texts xs)
    → All (IsFree b',') (option_texts ys)
    → All (IsFree b',') (option_texts (elim b [ false ↦ xs | true ↦ o ∷ ys ]))
new_case o false xs ys n hx hy = hx
new_case o true xs ys n hx hy = (option_text-IsFree o n, hy)

new_options-IsFree :
    (existing : List Text) (os : List (Text × Text))
    → All PairIsFree os
    → All (IsFree b',') (option_texts (new_options existing os))
unfolding new_options
new_options-IsFree existing [] h = tt
new_options-IsFree existing (o ∷ os) (n, h) =
    new_case o (adds existing o.0) (new_options existing os) (new_options (o.0 ∷ existing) os) n
      (new_options-IsFree existing os h) (new_options-IsFree (o.0 ∷ existing) os h)

-- The text of the mount options, split at its commas, starts with the options of a warm-up, and none
-- after them is one that only a worker has.
abbrev pub OptsSpare : Text → List Text → Type 0
OptsSpare cache_group_name mount_opts =
    let opts = split b',' (join b',' mount_opts) in
    (take 5 opts ≡ first_opts cache_group_name) × All IsSpared (drop 5 opts)

abbrev pub Spares : Text → Option MountInfo → Type 0
Spares cache_group_name none = Unit
Spares cache_group_name (some info) = OptsSpare cache_group_name info.mount_opts

joined-Spares :
    (cg : Text) (rest : List Text)
    → IsFree b',' cg
    → All (IsFree b',') rest
    → All IsSpared rest
    → OptsSpare cg (first_opts cg ++ rest)
joined-Spares cg rest hg hr h =
    let first = codes "cache-group=" ++ cg in
    let others =
      codes "no-sharing"
      ∷ codes "cache-size=0"
      ∷ codes "log=/dev/stdout"
      ∷ codes "no-syslog"
      ∷ rest in
    let e =
      split-join b',' first others (append-IsFree b',' (codes "cache-group=") cg refl hg)
        (refl, (refl, (refl, (refl, hr)))) in
    (ap (take 5) e, subst (λ os. All IsSpared (drop 5 os)) (sym e) h)

all_spared :
    (cg : Text) (kept extra : List Text)
    → IsFree b',' cg
    → All (IsFree b',') kept
    → All IsSpared kept
    → All (IsFree b',') extra
    → OptsSpare cg (append_warmup_mount_opts (first_opts cg ++ kept) extra)
unfolding append_warmup_mount_opts
all_spared cg kept extra hg hk sk he =
    let added =
      option_texts (new_options (keys_of (first_opts cg ++ kept)) (parse_options extra)) in
    joined-Spares cg (kept ++ added) hg
      (All-append (IsFree b',') kept added hk (
        new_options-IsFree (keys_of (first_opts cg ++ kept)) (parse_options extra)
          (parse_options-free extra he)))
      (All-append IsSpared kept added sk (
        new_options-IsSpared (keys_of (first_opts cg ++ kept)) (parse_options extra)
          (parse_options-IsName extra)))

worker-Spares :
    (cg : Text) (w : Worker) (o : Option (Text × List Text)) (extra : List Text)
    → IsFree b',' cg
    → All (IsFree b',') extra
    → OptsFree o
    → Spares cg (elim o [
      | none ↦ none
      | some p ↦ some (record {
        auth_cmd = first_line w.shell_command;
        vol_name = p.0;
        mount_opts = append_warmup_mount_opts (first_opts cg ++ kept_opts p.1) extra;
      })
    ])
worker-Spares cg w none extra hg he h = tt
worker-Spares cg w (some p) extra hg he h =
    all_spared cg (kept_opts p.1) extra hg (kept_opts-IsFree p.1 h) (kept_opts-IsSpared p.1) he

-- Where the name of the cache group and the options of the resource have no comma, with a worker or
-- without one: the text of a warm-up's mount options, split at its commas, starts with its own cache
-- group, no-sharing, a cache of size 0 and its log options, and no option after them, be it of the
-- worker or of the resource, has the name of one that only a worker has (cache-size, cache-dir,
-- cache-group, group-backup and so on).
pub get_warm_up_mount_info-Spares :
    (cache_group_name : Text) (w : Option Worker) (secret : List (String × Text))
    (extra : List Text)
    → IsFree b',' cache_group_name
    → All (IsFree b',') extra
    → Spares cache_group_name (get_warm_up_mount_info cache_group_name w secret extra)
unfolding get_warm_up_mount_info
get_warm_up_mount_info-Spares cg none secret extra hg he = all_spared cg [] extra hg tt tt he
get_warm_up_mount_info-Spares cg (some w) secret extra hg he =
    worker-Spares cg w (parse_worker_mount_info w) extra hg he (parsed-OptsFree w)
