-- ===== src/Scheduler/Laws.antt =====
-- What it means that the simulator admits a pod (pkg/scheduler/scheduler_simulator.go).
use juicefs_operator.Base.{
  String, ◌≡◌, refl, sym, ◌∙◌, Bool, true, false, Option, none, some, List, [], ◌∷◌, ◌++◌, filterb,
  any, All, lookup, arith, Option-cases, inl, inr,
}
use juicefs_operator.Scheduler.{
  Term, Pod, Node, Cluster, Simulator, is_pending_match, is_cluster_match, list_cluster,
  list_selected, list_pod_affinity_term_pods, check_affinity_terms, check_anti_affinity_terms,
  check_pod_affinity, check_pod_anti_affinity, check_node_affinity, can_schedule_pod_on_node,
}

append-eq-nil : {A : Type 0} (xs ys : List A) → xs ++ ys ≡ [] → ys ≡ []
append-eq-nil [] ys h = h
append-eq-nil (x ∷ xs) ys h = cc

filterb-any : {A : Type 0} (p : A → Bool) (xs : List A) → filterb p xs ≡ [] → any p xs ≡ false
filterb-any p [] h = refl
filterb-any p (x ∷ xs) h = ground (arith, filterb-any p xs)

any-false : {A : Type 0} (xs : List A) → any (λ (x : A). false) xs ≡ false
any-false [] = refl
any-false (x ∷ xs) = any-false xs

abbrev pub terms_of : {L : Type 0} → Option (List (Term L)) → List (Term L)
terms_of none = []
terms_of (some ts) = ts

module _ (k : Cluster) (s : Simulator k.LabelSelector) where
  abbrev hits_at :
      Option String → Option k.Selector → String → Term k.LabelSelector → Pod k.LabelSelector → Bool
  hits_at none sel current t p = false
  hits_at (some value) none current t p = false
  hits_at (some value) (some sel) current t p =
      is_pending_match k s current t.topology_key value sel p

  -- The term, of a pod on the node, selects a pod of the same topology that is pending.
  abbrev pub term_hits : String → Node → Term k.LabelSelector → Pod k.LabelSelector → Bool
  term_hits current node t p =
      hits_at (lookup t.topology_key node.labels) (k.as_selector t.label_selector) current t p

  -- A pod that the term selects is in the node's topology.
  abbrev pub IsNear : String → Node → Term k.LabelSelector → Type 0
  IsNear current node t =
      (value : String) × (lookup t.topology_key node.labels ≡ some value)
      × (p : Pod k.LabelSelector) × (ps : List (Pod k.LabelSelector)) × (list_pod_affinity_term_pods
            k s current t value
          ≡ some (p ∷ ps))

  listed_none :
      (current value : String) (t : Term k.LabelSelector) (sel : k.Selector)
      → list_selected k s current t value (some sel) ≡ some []
      → any (is_pending_match k s current t.topology_key value sel) s.pending_pods ≡ false
  unfolding list_selected
  listed_none current value t sel h = elim (Option-cases (list_cluster k t.namespaces sel)) [
    | inl e ↦ absurd (ground arith)
    | inr (pods, e) ↦
        filterb-any (is_pending_match k s current t.topology_key value sel) s.pending_pods (
          append-eq-nil (filterb (is_cluster_match k s current t.topology_key value) pods)
            (filterb (is_pending_match k s current t.topology_key value sel) s.pending_pods)
            (ground arith))
  ]

  hits_none :
      (current : String) (t : Term k.LabelSelector) (v : Option String) (sel : Option k.Selector)
      → ((value : String) → v ≡ some value → list_selected k s current t value sel ≡ some [])
      → any (hits_at v sel current t) s.pending_pods ≡ false
  hits_none current t none sel h = any-false s.pending_pods
  hits_none current t (some value) none h = any-false s.pending_pods
  hits_none current t (some value) (some sel) h = listed_none current value t sel (h value refl)

  clear_at :
      (current : String) (node : Node) (t : Term k.LabelSelector) (v : Option String)
      → lookup t.topology_key node.labels ≡ v
      → ((value : String)
          → v ≡ some value
          → list_pod_affinity_term_pods k s current t value ≡ some [])
      → any (term_hits current node t) s.pending_pods ≡ false
  unfolding list_pod_affinity_term_pods
  clear_at current node t v e h =
      hits_none current t (lookup t.topology_key node.labels) (k.as_selector t.label_selector)
        (λ value f. h value (sym e ∙ f))

  check_anti_affinity_terms-clear :
      (current : String) (node : Node) (ts : List (Term k.LabelSelector))
      → check_anti_affinity_terms k s current node ts ≡ some true
      → All (λ t. any (term_hits current node t) s.pending_pods ≡ false) ts
  unfolding check_anti_affinity_terms
  check_anti_affinity_terms-clear current node [] h = tt
  check_anti_affinity_terms-clear current node (t ∷ ts) h =
      elim (Option-cases (lookup t.topology_key node.labels)) [
        | inl e ↦ (
          clear_at current node t none e (λ value f. absurd (ground arith)),
          check_anti_affinity_terms-clear current node ts (ground arith),
        )
        | inr (v, e) ↦ elim (Option-cases (list_pod_affinity_term_pods k s current t v)) [
          | inl f ↦ absurd (ground arith)
          | inr (p ∷ ps, f) ↦ absurd (ground arith)
          | inr ([], f) ↦ (
            clear_at current node t (some v) e (λ value g. ground arith),
            check_anti_affinity_terms-clear current node ts (ground arith),
          )
        ]
      ]

  check_affinity_terms-IsNear :
      (current : String) (node : Node) (ts : List (Term k.LabelSelector))
      → check_affinity_terms k s current node ts ≡ some true
      → All (IsNear current node) ts
  unfolding check_affinity_terms
  check_affinity_terms-IsNear current node [] h = tt
  check_affinity_terms-IsNear current node (t ∷ ts) h =
      elim (Option-cases (lookup t.topology_key node.labels)) [
        | inl e ↦ absurd (ground arith)
        | inr (v, e) ↦ elim (Option-cases (list_pod_affinity_term_pods k s current t v)) [
          | inl f ↦ absurd (ground arith)
          | inr ([], f) ↦ absurd (ground arith)
          | inr (p ∷ ps, f) ↦
              ((v, e, p, ps, f), check_affinity_terms-IsNear current node ts (ground arith))
        ]
      ]

  -- The constraints of a pod hold on the node, over the pods that the cluster and the simulator hold.
  pub record IsAdmitted (pod : Pod k.LabelSelector) (node : Node) : Type 0 where
    pub node_affinity : check_node_affinity k s pod node ≡ true
    pub tolerated : k.has_untolerated_taint pod node ≡ false
    pub near : All (IsNear pod.name node) (terms_of pod.pod_affinity)
    pub apart :
        All
          (λ t. any (term_hits pod.name node t) s.pending_pods ≡ false)
          (terms_of pod.pod_anti_affinity)

  check_pod_affinity-terms :
      (pod : Pod k.LabelSelector) (node : Node)
      → check_pod_affinity k s pod node ≡ some true
      → check_affinity_terms k s pod.name node (terms_of pod.pod_affinity) ≡ some true
  unfolding check_pod_affinity check_affinity_terms
  check_pod_affinity-terms pod node h = elim (Option-cases pod.pod_affinity) [
    | inl e ↦ ground arith
    | inr (ts, e) ↦ ground arith
  ]

  check_pod_anti_affinity-terms :
      (pod : Pod k.LabelSelector) (node : Node)
      → check_pod_anti_affinity k s pod node ≡ some true
      → check_anti_affinity_terms k s pod.name node (terms_of pod.pod_anti_affinity) ≡ some true
  unfolding check_pod_anti_affinity check_anti_affinity_terms
  check_pod_anti_affinity-terms pod node h = elim (Option-cases pod.pod_anti_affinity) [
    | inl e ↦ ground arith
    | inr (ts, e) ↦ ground arith
  ]

  -- The simulator admits a pod on a node only if the node's affinity and taints allow it, each
  -- required affinity term has a pod in the node's topology, and no required anti-affinity term
  -- selects a pod pending in the node's topology.
  pub can_schedule_pod_on_node-IsAdmitted :
      (pod : Pod k.LabelSelector) (node : Node)
      → can_schedule_pod_on_node k s pod node ≡ some true
      → IsAdmitted pod node
  unfolding can_schedule_pod_on_node
  can_schedule_pod_on_node-IsAdmitted pod node h = record {
    node_affinity = ground arith;
    tolerated = ground arith;
    near =
        check_affinity_terms-IsNear pod.name node (terms_of pod.pod_affinity)
          (check_pod_affinity-terms pod node (ground arith));
    apart =
        check_anti_affinity_terms-clear pod.name node (terms_of pod.pod_anti_affinity)
          (check_pod_anti_affinity-terms pod node (ground arith));
  }
