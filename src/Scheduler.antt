-- ===== src/Scheduler.antt =====
-- The scheduler simulator (pkg/scheduler/scheduler_simulator.go). The helpers of Kubernetes that
-- it calls and the API server's list of pods are an interface; an error is `none`.
pub mod Laws
use juicefs_operator.Base.{
  String, Bool, true, false, not, ◌&&◌, ◌||◌, Option, none, some, List, [], ◌∷◌, ◌++◌, str_eq,
  if◌then◌else◌, filterb, lookup, is_some, from_option, insert,
}

abbrev pub Labels : Type 0
Labels = List (String × String)

-- corev1.PodAffinityTerm over the type of label selectors.
pub record Term (L : Type 0) : Type 0 where
  pub label_selector : L
  pub topology_key : String
  pub namespaces : List String

-- The two lists are the required terms of an affinity that is there.
pub record Pod (L : Type 0) : Type 0 where
  pub name : String
  pub node_name : String
  pub labels : Labels
  pub has_node_affinity : Bool
  pub pod_affinity : Option (List (Term L))
  pub pod_anti_affinity : Option (List (Term L))

pub record Node : Type 0 where
  pub name : String
  pub labels : Labels

-- `list` answers a List of the pods of one namespace, or of all, that a selector matches.
pub record Cluster : Type 1 where
  pub LabelSelector : Type 0
  pub Selector : Type 0
  pub as_selector : LabelSelector → Option Selector
  pub matches : Selector → Labels → Bool
  pub list : Option String → Selector → Option (List (Pod LabelSelector))
  pub matches_node_affinity : Pod LabelSelector → Node → Bool
  pub has_untolerated_taint : Pod LabelSelector → Node → Bool

pub record Simulator (L : Type 0) : Type 0 where
  pub pending_pods : List (Pod L)
  pub to_be_deleted_pods : List (String × Pod L)
  pub nodes : List (String × Node)

abbrev key_by_name : List Node → List (String × Node) → List (String × Node)
key_by_name [] m = m
key_by_name (n ∷ ns) m = key_by_name ns (insert n.name n m)

unfoldable pub new_simulator : {L : Type 0} → List Node → Simulator L
new_simulator nodes = record {
  pending_pods = [];
  to_be_deleted_pods = [];
  nodes = key_by_name nodes [];
}

unfoldable pub append_pending_pod : {L : Type 0} → Pod L → Simulator L → Simulator L
append_pending_pod p s = record s { pending_pods = s.pending_pods ++ p ∷ [] }

unfoldable pub append_to_be_deleted_pod : {L : Type 0} → Pod L → Simulator L → Simulator L
append_to_be_deleted_pod p s = record s {
  to_be_deleted_pods = insert p.name p s.to_be_deleted_pods;
}

abbrev pub label_of : Node → String → String
label_of n k = from_option "" (lookup k n.labels)

-- The pod's node is one of the simulator's, with the value.
unfoldable pub is_placed : {L : Type 0} → List (String × Node) → String → String → Pod L → Bool
is_placed nodes key value p = elim (lookup p.node_name nodes) [
  | none ↦ false
  | some n ↦ str_eq (label_of n key) value
]

module _ (k : Cluster) where
  open k use {LabelSelector, Selector, as_selector, matches, list}

  list_namespaces : List String → Selector → Option (List (Pod LabelSelector))
  list_namespaces [] sel = some []
  list_namespaces (ns ∷ rest) sel = elim (list (some ns) sel) [
    | none ↦ none
    | some pods ↦ elim (list_namespaces rest sel) [ none ↦ none | some more ↦ some (pods ++ more) ]
  ]

  unfoldable pub list_cluster : List String → Selector → Option (List (Pod LabelSelector))
  unfolding list_namespaces
  list_cluster [] sel = list none sel
  list_cluster (ns ∷ rest) sel = list_namespaces (ns ∷ rest) sel

  module _ (s : Simulator LabelSelector) where
    unfoldable pub is_pending_match : String → String → String → Selector → Pod LabelSelector → Bool
    unfolding is_placed
    is_pending_match current key value sel p =
        is_placed s.nodes key value p && matches sel p.labels && not (str_eq p.name current)

    unfoldable pub is_cluster_match : String → String → String → Pod LabelSelector → Bool
    unfolding is_placed
    is_cluster_match current key value p =
        is_placed s.nodes key value p
        && not (str_eq p.name current)
        && not (is_some (lookup p.name s.to_be_deleted_pods))

    unfoldable pub list_selected :
        String → Term LabelSelector → String → Option Selector → Option (List (Pod LabelSelector))
    unfolding list_cluster is_pending_match is_cluster_match
    list_selected current term value none = none
    list_selected current term value (some sel) = elim (list_cluster term.namespaces sel) [
      | none ↦ none
      | some pods ↦ some (
          filterb (is_cluster_match current term.topology_key value) pods
          ++ filterb (is_pending_match current term.topology_key value sel) s.pending_pods)
    ]

    unfoldable pub list_pod_affinity_term_pods :
        String → Term LabelSelector → String → Option (List (Pod LabelSelector))
    unfolding list_selected
    list_pod_affinity_term_pods current term value =
        list_selected current term value (as_selector term.label_selector)

    unfoldable pub check_affinity_terms : String → Node → List (Term LabelSelector) → Option Bool
    unfolding list_pod_affinity_term_pods
    check_affinity_terms current node [] = some true
    check_affinity_terms current node (t ∷ ts) = elim (lookup t.topology_key node.labels) [
      | none ↦ some false
      | some value ↦ elim (list_pod_affinity_term_pods current t value) [
        | none ↦ none
        | some [] ↦ some false
        | some (_ ∷ _) ↦ check_affinity_terms current node ts
      ]
    ]

    unfoldable pub check_pod_affinity : Pod LabelSelector → Node → Option Bool
    unfolding check_affinity_terms
    check_pod_affinity pod node = elim pod.pod_affinity [
      | none ↦ some true
      | some terms ↦ check_affinity_terms pod.name node terms
    ]

    unfoldable pub check_anti_affinity_terms :
        String → Node → List (Term LabelSelector) → Option Bool
    unfolding list_pod_affinity_term_pods
    check_anti_affinity_terms current node [] = some true
    check_anti_affinity_terms current node (t ∷ ts) = elim (lookup t.topology_key node.labels) [
      | none ↦ check_anti_affinity_terms current node ts
      | some value ↦ elim (list_pod_affinity_term_pods current t value) [
        | none ↦ none
        | some [] ↦ check_anti_affinity_terms current node ts
        | some (_ ∷ _) ↦ some false
      ]
    ]

    unfoldable pub check_pod_anti_affinity : Pod LabelSelector → Node → Option Bool
    unfolding check_anti_affinity_terms
    check_pod_anti_affinity pod node = elim pod.pod_anti_affinity [
      | none ↦ some true
      | some terms ↦ check_anti_affinity_terms pod.name node terms
    ]

    abbrev pub check_node_affinity : Pod LabelSelector → Node → Bool
    check_node_affinity pod node =
        if pod.has_node_affinity then k.matches_node_affinity pod node else true

    unfoldable pub can_schedule_pod_on_node : Pod LabelSelector → Node → Option Bool
    unfolding check_pod_affinity check_pod_anti_affinity
    can_schedule_pod_on_node pod node =
        if not (check_node_affinity pod node)
        then some false
        else if k.has_untolerated_taint pod node
        then some false
        else elim (check_pod_affinity pod node) [
          | none ↦ none
          | some false ↦ some false
          | some true ↦ check_pod_anti_affinity pod node
        ]
