-- ===== src/CacheGroup/Update/Restart/Merged.antt =====
-- The annotations after a smooth restart (smoothRestartWorker).
use juicefs_operator.Base.{
  String, ◌≡◌, not, none, List, [], ◌∷◌, arith, str_eq_iff, if◌then◌else◌, lookup, insert,
  lookup-insert, filterb, is_some,
}
use juicefs_operator.Kube.{Annotations}
use juicefs_operator.CacheGroup.Update.Restart.{
  is_juicefs_key, insert_juicefs, restarted_annotations,
}

-- A Go map holds a key once.
abbrev pub HasUniqueKeys : List (String × String) → Type 0
HasUniqueKeys [] = Unit
HasUniqueKeys ((k, v) ∷ m) = (lookup k m ≡ none) × HasUniqueKeys m

lookup-drop_juicefs :
    (k : String) (m : List (String × String))
    → lookup k (filterb (λ kv. not (is_juicefs_key kv.0)) m)
      ≡ (if is_juicefs_key k then none else lookup k m)
lookup-drop_juicefs k [] = ground arith
lookup-drop_juicefs k ((j, v) ∷ m) = ground (arith, str_eq_iff j k, lookup-drop_juicefs k m)

lookup-insert_juicefs :
    (k : String) (target m : List (String × String))
    → HasUniqueKeys target
    → lookup k (insert_juicefs target m) ≡ (
        if is_juicefs_key k
        then (if is_some (lookup k target) then lookup k target else lookup k m)
        else lookup k m)
unfolding insert_juicefs
lookup-insert_juicefs k [] m u = ground arith
lookup-insert_juicefs k ((j, v) ∷ target) m u = ground (
  arith,
  str_eq_iff j k,
  lookup-insert j k v m,
  lookup-insert_juicefs k target m u.1,
  lookup-insert_juicefs k target (insert j v m) u.1,
)

-- After a smooth restart each juicefs.io/ annotation is the target's, absent where the target has
-- none, and every other annotation is the worker's own.
pub restarted_annotations-extra :
    (worker target : Annotations) (k : String)
    → HasUniqueKeys target.extra
    → lookup k (restarted_annotations worker target).extra
      ≡ (if is_juicefs_key k then lookup k target.extra else lookup k worker.extra)
unfolding restarted_annotations
restarted_annotations-extra worker target k u = ground (
  arith,
  lookup-insert_juicefs k target.extra (filterb (λ kv. not (is_juicefs_key kv.0)) worker.extra) u,
  lookup-drop_juicefs k worker.extra,
)
