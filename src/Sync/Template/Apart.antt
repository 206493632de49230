-- ===== src/Sync/Template/Apart.antt =====
-- The affinity that the pods of a sync have when none is given (pkg/builder/sync_pod.go: newWorkerPod,
-- NewManagerPod), and the labels that it looks for.
use juicefs_operator.Base.{
  ℕ, String, Bool, true, false, not, ◌&&◌, ◌||◌, Option, none, some, List, [], ◌∷◌, ◌≡◌, ◌⊎◌, inl,
  inr, refl, ap, sym, subst, ◌∙◌, arith, length, any, is_some, lookup, lookup-copy_into,
  lookup-insert,
}
use juicefs_operator.Base.Text.{Text, codes, text_eq, text_eq_iff, contains_text}
use juicefs_operator.Labels.{truncate_label_value, truncate_label_value_with_length-le}
use juicefs_operator.Sync.Affinity.{Expression, Term, Weighted, Affinity, truncate_sync_affinity}
use juicefs_operator.Sync.Template.{
  SyncPodBuilder, SyncPod, Outside, placed, new_worker_pod, new_manager_pod, spread, worker_pod,
  manager_pod, pod_labels, after_cut,
}
use juicefs_operator.Sync.Template.Shared.{pod_of}

-- Kubernetes: what a term of a pod's affinity selects.
abbrev has_text : Text → List Text → Bool
has_text t ts = any (text_eq t) ts

abbrev carries : Option Text → Text → Bool
carries none v = false
carries (some w) v = text_eq w v

abbrev among : Option Text → List Text → Bool
among none vs = false
among (some w) vs = has_text w vs

abbrev satisfies : List (String × Text) → Expression → Bool
satisfies labels e =
    let found = lookup e.key labels in
    (text_eq e.operator (codes "In") && among found e.values)
    || (text_eq e.operator (codes "NotIn") && not (among found e.values))
    || (text_eq e.operator (codes "Exists") && is_some found)
    || (text_eq e.operator (codes "DoesNotExist") && not (is_some found))

abbrev all_of : {A : Type 0} → (A → Bool) → List A → Bool
all_of f [] = true
all_of f (x ∷ xs) = f x && all_of f xs

abbrev selects : Term → (namespace : Text) → List (String × Text) → Bool
selects t namespace labels = has_text namespace t.namespaces && elim t.label_selector [
  | none ↦ false
  | some s ↦
      all_of (λ (m : String × Text). carries (lookup m.0 labels) m.1) s.match_labels
      && all_of (satisfies labels) s.match_expressions
]

text_eq_refl : (t : Text) → text_eq t t ≡ true
text_eq_refl t = (text_eq_iff t t).1 refl

module _ {V : Type 0} where
  -- A pod would rather not be where the other is: the preferred terms of its anti-affinity.
  abbrev pub avoids : SyncPod V → SyncPod V → Bool
  avoids p q = elim p.affinity.pod_anti_affinity [
    | none ↦ false
    | some t ↦ any (λ (w : Weighted). selects w.term q.namespace q.labels) t.preferred
  ]

  -- One of the pods of the sync: the manager or a worker.
  abbrev pub Built : Outside V → SyncPodBuilder V → SyncPod V → Type 0
  Built o b p =
      (pod_of (new_manager_pod o b) ≡ some p) ⊎ ((j : ℕ) × (pod_of (new_worker_pod o b j) ≡ some p))

  -- The default affinity once it is cut.
  abbrev cut_spread : SyncPodBuilder V → Text → Affinity V
  cut_spread b label = spread (record b { name = label })

  placed_default :
      (o : Outside V) (b : SyncPodBuilder V) (label : Text)
      → b.affinity ≡ none
      → truncate_label_value o.cal_md5 b.name ≡ some label
      → placed o b ≡ some (cut_spread b label)
  unfolding placed spread truncate_sync_affinity contains_text
  placed_default o b label ha hl = rw ha (rw hl refl)

  sync_label :
      (b : SyncPodBuilder V) (label : Text)
      → lookup "juicefs.io/sync" b.labels ≡ none
      → lookup "juicefs.io/sync" (pod_labels b label) ≡ some label
  sync_label b label h = lookup-copy_into "juicefs.io/sync" _ b.labels h

  abbrev IsOne : SyncPodBuilder V → Text → SyncPod V → Type 0
  IsOne b label p =
      (p.affinity ≡ cut_spread b label)
      × (p.namespace ≡ b.namespace)
      × (lookup "juicefs.io/sync" p.labels ≡ some label)

  abbrev AreOne : SyncPodBuilder V → Text → Option (SyncPod V) → Type 0
  AreOne b label none = Unit
  AreOne b label (some p) = IsOne b label p

  one-avoids :
      (b : SyncPodBuilder V) (label : Text) (p q : SyncPod V)
      → IsOne b label p
      → IsOne b label q
      → avoids p q ≡ true
  unfolding spread
  one-avoids b label p q (ha, _, _) (_, hn, hl) =
      rw ha (rw hn (rw hl (rw (text_eq_refl b.namespace) (rw (text_eq_refl label) refl))))

  worker_built :
      (o : Outside V) (b : SyncPodBuilder V) (label : Text)
      → b.affinity ≡ none
      → truncate_label_value o.cal_md5 b.name ≡ some label
      → (j : ℕ)
      → new_worker_pod o b j
        ≡ some (after_cut b (cut_spread b label), worker_pod o b j label (cut_spread b label))
  unfolding new_worker_pod
  worker_built o b label ha hl j = rw hl (rw (placed_default o b label ha hl) refl)

  manager_built :
      (o : Outside V) (b : SyncPodBuilder V) (label : Text)
      → b.affinity ≡ none
      → truncate_label_value o.cal_md5 b.name ≡ some label
      → new_manager_pod o b
        ≡ some (
          after_cut b (cut_spread b label),
          manager_pod o b (worker_pod o b 0 label (cut_spread b label)),
        )
  unfolding new_manager_pod manager_pod
  manager_built o b label ha hl = rw (worker_built o b label ha hl 0) refl

  worker-IsOne :
      (o : Outside V) (b : SyncPodBuilder V) (label : Text)
      → lookup "juicefs.io/sync" b.labels ≡ none
      → (j : ℕ) → IsOne b label (worker_pod o b j label (cut_spread b label))
  unfolding worker_pod
  worker-IsOne o b label h j = (refl, refl, sync_label b label h)

  manager-IsOne :
      (o : Outside V) (b : SyncPodBuilder V) (label : Text)
      → lookup "juicefs.io/sync" b.labels ≡ none
      → IsOne b label (manager_pod o b (worker_pod o b 0 label (cut_spread b label)))
  unfolding manager_pod worker_pod
  manager-IsOne o b label h = (
    refl,
    refl,
    lookup-insert "app.kubernetes.io/name" "juicefs.io/sync" (codes "juicefs-sync-manager")
          (pod_labels b label)
        ∙ sync_label b label h,
  )

  Built-IsOne :
      (o : Outside V) (b : SyncPodBuilder V) (label : Text)
      → b.affinity ≡ none
      → lookup "juicefs.io/sync" b.labels ≡ none
      → truncate_label_value o.cal_md5 b.name ≡ some label
      → (p : SyncPod V) → Built o b p
      → IsOne b label p
  Built-IsOne o b label ha h hl p (inl e) =
      subst (AreOne b label) (sym (ap pod_of (manager_built o b label ha hl)) ∙ e)
        (manager-IsOne o b label h)
  Built-IsOne o b label ha h hl p (inr (j, e)) =
      subst (AreOne b label) (sym (ap pod_of (worker_built o b label ha hl j)) ∙ e)
        (worker-IsOne o b label h j)

  -- With a hash of 32 characters, no affinity given and no label given in the place of the sync's own,
  -- the manager and every worker of a sync come out, and each of these pods would rather not run where
  -- another of them does, however long the name of the sync is.
  pub new_worker_pod-avoids :
      (o : Outside V) (b : SyncPodBuilder V)
      → ((s : Text) → length (o.cal_md5 s) ≡ 32)
      → b.affinity ≡ none
      → lookup "juicefs.io/sync" b.labels ≡ none
      → (j : ℕ) (p q : SyncPod V) → Built o b p
      → Built o b q
      → (is_some (new_manager_pod o b) ≡ true)
        × (is_some (new_worker_pod o b j) ≡ true)
        × (avoids p q ≡ true)
  unfolding truncate_label_value
  new_worker_pod-avoids o b is_md5 ha h j p q hp hq =
      let (label, hl, _, _) =
        truncate_label_value_with_length-le o.cal_md5 b.name 63 (is_md5 b.name) (omega arith) in
      (
        rw (manager_built o b label ha hl) refl,
        rw (worker_built o b label ha hl j) refl,
        one-avoids b label p q (Built-IsOne o b label ha h hl p hp)
            (Built-IsOne o b label ha h hl q hq),
      )
