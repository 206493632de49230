-- ===== src/Examples/Pods.antt =====
-- Reading and placing pods, on concrete texts and affinities.
use juicefs_operator.Base.Text.{
  contains_text, has_prefix, parse_digits, trim_space, cut, text_eq, split, codes,
}
use juicefs_operator.Base.{◌≡◌, refl, true, false, Option, none, some, [], ◌∷◌, ◌++◌, str_eq}
use juicefs_operator.Base.Int.{pos, negsuc}
use juicefs_operator.Kube.{PodPhase}
use juicefs_operator.Pods.{
  parse_int, empty_sample, parse_worker_stats, is_mount_point_ready, must_parse_worker_mount_cmds,
  is_waiting, is_running, pod_not_ready_reason,
}
use juicefs_operator.Pods.Placement.{other_term, NodeAffinity, add_node_name_node_affinity, fits}

read_stats :
    parse_worker_stats (
      codes "uptime: 60" ++ 10 ∷ codes "other: x" ++ 10 ∷ codes "blockcache.bytes: 4096" ++ 10 ∷ [])
    ≡ some (record empty_sample { cache_bytes = some (pos 4096); uptime = some (pos 60) })
unfolding parse_worker_stats split text_eq cut trim_space parse_digits
read_stats = refl

no_metrics : parse_worker_stats (codes "uptime: 60") ≡ none
unfolding parse_worker_stats split text_eq cut trim_space parse_digits
no_metrics = refl

least_int : parse_int (codes "-9223372036854775808") ≡ some (negsuc 9223372036854775807)
unfolding parse_int parse_digits
least_int = refl

above_range : parse_int (codes "9223372036854775808") ≡ none
unfolding parse_int parse_digits
above_range = refl

mount_cmds :
    must_parse_worker_mount_cmds (codes "auth" ++ 10 ∷ codes "exec mount vol /mnt/jfs -o a,b")
    ≡ some (codes "vol", codes "a" ∷ codes "b" ∷ [])
unfolding must_parse_worker_mount_cmds has_prefix split
mount_cmds = refl

-- Five words pass the guard, and the read of the sixth panics.
five_words : must_parse_worker_mount_cmds (codes "exec mount vol /mnt/jfs -o") ≡ none
unfolding must_parse_worker_mount_cmds has_prefix split
five_words = refl

mounted : is_mount_point_ready false [] (codes "Device: 1 Inode: 1 Links") ≡ true
unfolding is_mount_point_ready text_eq contains_text
mounted = refl

waiting :
    pod_not_ready_reason PodPhase.pending (is_running ∷ is_waiting "ImagePullBackOff" ∷ [])
    ≡ "ImagePullBackOff"
unfolding pod_not_ready_reason
waiting = refl

-- The user requires the nodes b.
abbrev on_b : Option (Option NodeAffinity)
on_b = some (some (record { required = some (other_term (λ node. str_eq node "b") ∷ []) }))

-- Bound to the node a, the pod still fits b.
unbound : fits (add_node_name_node_affinity on_b "a") "b" ≡ true
unfolding add_node_name_node_affinity
unbound = refl
