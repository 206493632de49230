-- ===== src/Sync/Affinity.antt =====
-- TruncateSyncAffinityIfNeeded of pkg/utils/sync.go: the names of syncs in the affinity of a sync's
-- pods are cut the way the label is. A panic is `none`. The labels to match are Go maps with their
-- entries in any order. Node affinity is passed on, as is what else a term holds.
pub mod Laws
use juicefs_operator.Base.{
  ◌>>=◌, ℕ, String, Bool, Option, none, some, List, [], ◌∷◌, if◌then◌else◌, str_eq,
}
use juicefs_operator.Base.Text.{Text, codes, contains_text}
use juicefs_operator.Labels.{truncate_label_value}

-- metav1.LabelSelectorRequirement
pub record Expression : Type 0 where
  pub key : String
  pub operator : Text
  pub values : List Text

-- metav1.LabelSelector
pub record Selector : Type 0 where
  pub match_labels : List (String × Text)
  pub match_expressions : List Expression

-- corev1.PodAffinityTerm
pub record Term : Type 0 where
  pub label_selector : Option Selector
  pub namespaces : List Text
  pub topology_key : Text

-- corev1.WeightedPodAffinityTerm
pub record Weighted : Type 0 where
  pub weight : ℕ
  pub term : Term

-- corev1.PodAffinity, corev1.PodAntiAffinity
pub record Terms : Type 0 where
  pub preferred : List Weighted
  pub required : List Term

pub record Affinity (V : Type 0) : Type 0 where
  pub node_affinity : Option V
  pub pod_affinity : Option Terms
  pub pod_anti_affinity : Option Terms

-- A loop that a panic ends.
unfoldable pub each : {A B : Type 0} → (A → Option B) → List A → Option (List B)
each f [] = some []
each f (x ∷ xs) = let rest = each f xs in f x >>= λ y. rest >>= λ ys. some (y ∷ ys)

unfoldable pub each_in : {A B : Type 0} → (A → Option B) → Option A → Option (Option B)
each_in f none = some none
each_in f (some x) = f x >>= λ y. some (some y)

module _ (cal_md5 : Text → Text) where
  unfoldable pub label_entry : String × Text → Option (String × Text)
  label_entry (k, v) =
      if contains_text (codes k) (codes "juicefs.io/sync")
      then (truncate_label_value cal_md5 v >>= λ w. some (k, w))
      else some (k, v)

  -- `expr.Values[0]`: an expression without values is out of range.
  unfoldable pub cut_values : List Text → Option (List Text)
  cut_values [] = none
  cut_values (v ∷ vs) = truncate_label_value cal_md5 v >>= λ w. some (w ∷ [])

  unfoldable pub expression : Expression → Option Expression
  unfolding cut_values
  expression e =
      if str_eq e.key "juicefs.io/sync"
      then (cut_values e.values >>= λ vs. some (record e { values = vs }))
      else some e

  unfoldable pub selector : Selector → Option Selector
  unfolding each label_entry expression
  selector s = each label_entry s.match_labels >>= λ ls.
      each expression s.match_expressions >>= λ es.
      some (record { match_labels = ls; match_expressions = es })

  unfoldable pub handle_term : Term → Option Term
  unfolding each_in selector
  handle_term t = each_in selector t.label_selector >>= λ s. some (record t { label_selector = s })

  unfoldable pub weighted : Weighted → Option Weighted
  unfolding handle_term
  weighted w = handle_term w.term >>= λ t. some (record w { term = t })

  unfoldable pub terms : Terms → Option Terms
  unfolding each weighted handle_term
  terms t = each weighted t.preferred >>= λ ps.
      each handle_term t.required >>= λ rs. some (record { preferred = ps; required = rs })

  -- The one call is on an affinity that is not nil.
  unfoldable pub truncate_sync_affinity : {V : Type 0} → Affinity V → Option (Affinity V)
  unfolding each_in terms
  truncate_sync_affinity a = each_in terms a.pod_anti_affinity >>= λ anti.
      each_in terms a.pod_affinity >>= λ pods.
      some (record a { pod_anti_affinity = anti; pod_affinity = pods })
