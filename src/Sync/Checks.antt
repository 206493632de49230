-- ===== src/Sync/Checks.antt =====
-- The checks of a sync's specification at the start of SyncReconciler.Reconcile
-- (internal/controller/sync_controller.go).
use juicefs_operator.Base.{
  Bool, true, false, not, ◌&&◌, ◌||◌, Option, none, some, [], ◌∷◌, ◌==◌, if◌then◌else◌,
}
use juicefs_operator.Base.Text.{Text, codes, has_prefix}
use juicefs_operator.Version.{compare_image_version, at_least}
use juicefs_operator.Sync.{
  Reason, ce_to_ee, bad_from, bad_to, old_ee_for_files, old_ce_for_files, hdfs_to_hdfs,
  trailing_separator, ParsedSink, Spec,
}

ends_with_slash : Text → Bool
ends_with_slash [] = false
ends_with_slash (c ∷ []) = c == b'/'
ends_with_slash (c ∷ d ∷ s) = ends_with_slash (d ∷ s)

abbrev same : Bool → Bool → Bool
same true b = b
same false b = not b

unfoldable pub check_uris : Text → Text → Option Reason
unfolding ends_with_slash
check_uris from to =
    if has_prefix (codes "hdfs://") from && has_prefix (codes "hdfs://") to
    then some hdfs_to_hdfs
    else if not (same (ends_with_slash from) (ends_with_slash to))
    then some trailing_separator
    else none

check_to : ParsedSink → Option ParsedSink → Option Reason
check_to from none = some bad_to
check_to from (some to) = check_uris from.uri to.uri

check_from : Spec → Option ParsedSink → Option ParsedSink → Option Reason
unfolding check_to
check_from spec none to = some bad_from
check_from spec (some from) to =
    if spec.from_kinds.juicefs
      && from.files_from
      && not (at_least (compare_image_version spec.image (codes "5.1.10")))
    then some old_ee_for_files
    else if spec.from_kinds.juicefs_ce
        && from.files_from
        && not (at_least (compare_image_version spec.image (codes "1.3.0")))
    then some old_ce_for_files
    else check_to from to

-- The checks before any phase is looked at, in their order.
unfoldable pub rejects : Spec → Option ParsedSink → Option ParsedSink → Option Reason
unfolding check_from
rejects spec from to =
    if (spec.from_kinds.juicefs && spec.to_kinds.juicefs_ce)
      || (spec.to_kinds.juicefs && spec.from_kinds.juicefs_ce)
    then some ce_to_ee
    else check_from spec from to
