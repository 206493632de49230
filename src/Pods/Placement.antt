-- ===== src/Pods/Placement.antt =====
-- The node that a pod is bound to by its affinity: AddNodeNameNodeAffinity of pkg/utils/pod.go.
use juicefs_operator.Base.{
  String, ◌≡◌, refl, Bool, true, false, ◌||◌, Option, none, some, List, [], ◌∷◌, ◌++◌, any, arith,
  str_eq,
}

-- A term of a node selector: a node's name, or anything else, by the nodes that it matches.
pub data SelectorTerm : Type 0 where
  by_name : String → SelectorTerm
  other_term : (String → Bool) → SelectorTerm

-- corev1.Affinity: the required terms of its node affinity, where both are there. The rest of it and
-- the preferred terms are kept as they are by the code.
pub record NodeAffinity : Type 0 where
  pub required : Option (List SelectorTerm)

unfoldable pub add_node_name_node_affinity : Option (Option NodeAffinity) → String → NodeAffinity
add_node_name_node_affinity none name = record { required = some (by_name name ∷ []) }
add_node_name_node_affinity (some none) name = record { required = some (by_name name ∷ []) }
add_node_name_node_affinity (some (some a)) name = elim a.required [
  | none ↦ record { required = some (by_name name ∷ []) }
  | some terms ↦ record { required = some (terms ++ by_name name ∷ []) }
]

-- Kubernetes: a node fits when one of the required terms matches it, any node with no requirement.
abbrev matches : String → SelectorTerm → Bool
matches node (by_name name) = str_eq node name
matches node (other_term p) = p node

abbrev pub fits : NodeAffinity → String → Bool
fits a node = elim a.required [ none ↦ true | some terms ↦ any (matches node) terms ]

-- Is the node among those that the required terms, if there are any, allow.
abbrev pub was_required : Option (Option NodeAffinity) → String → Bool
was_required none node = false
was_required (some none) node = false
was_required (some (some a)) node = elim a.required [
  | none ↦ false
  | some terms ↦ any (matches node) terms
]

any-snoc :
    (p : SelectorTerm → Bool) (t : SelectorTerm) (ts : List SelectorTerm)
    → any p (ts ++ t ∷ []) ≡ (p t || any p ts)
any-snoc p t [] = refl
any-snoc p t (u ∷ ts) = ground (arith, any-snoc p t ts)

required-fits :
    (o : Option (List SelectorTerm)) (name node : String)
    → fits (add_node_name_node_affinity (some (some (record { required = o }))) name) node
      ≡ (str_eq node name || was_required (some (some (record { required = o }))) node)
unfolding add_node_name_node_affinity
required-fits none name node = refl
required-fits (some ts) name node = any-snoc (matches node) (by_name name) ts

-- A pod fits the nodes of the name that it is to be bound to, and besides them every node that the
-- required terms of its affinity allowed before: those terms are widened, not narrowed to the node.
pub add_node_name_node_affinity-fits :
    (a : Option (Option NodeAffinity)) (name node : String)
    → fits (add_node_name_node_affinity a name) node ≡ (str_eq node name || was_required a node)
unfolding add_node_name_node_affinity
add_node_name_node_affinity-fits none name node = refl
add_node_name_node_affinity-fits (some none) name node = refl
add_node_name_node_affinity-fits (some (some a)) name node = required-fits a.required name node
