-- ===== src/CacheGroup/Expected/Placed.antt =====
-- The workers that the simulated scheduling keeps (parseExpectStateByScheduler).
use juicefs_operator.Base.{
  String, ◌≡◌, refl, subst, true, false, Option, some, List, [], ◌∷◌, All, Pairwise, Pairwise-snoc,
  All-swap, All-map, All-self, Memᴰ, lookup, delete, lookup-delete, arith, Option-cases, inl, inr,
}
use juicefs_operator.Scheduler.{
  Pod, Node, Cluster, Simulator, new_simulator, append_pending_pod, append_to_be_deleted_pod,
  is_pending_match, can_schedule_pod_on_node,
}
use juicefs_operator.Scheduler.Laws.{term_hits, terms_of, can_schedule_pod_on_node-IsAdmitted}
use juicefs_operator.CacheGroup.Expected.{
  WorkerTemplate, WorkerSpec, States, place, by_name, simulate, parse_expect_state_by_scheduler,
  parse_expect_state_with_node,
}

module _ {V : Type 0} (k : Cluster)
    (build : String → Option (WorkerTemplate V) → Pod k.LabelSelector) where
  -- No required anti-affinity term of `q`, on its node, selects the earlier pod `p`.
  abbrev pub Apart :
      List Node → Simulator k.LabelSelector → Pod k.LabelSelector → Pod k.LabelSelector → Type 0
  Apart nodes sim p q =
      (n : Node) × Memᴰ n nodes
      × (n.name ≡ q.node_name)
      × All (λ t. term_hits k sim q.name n t p ≡ false) (terms_of q.pod_anti_affinity)

  admitted-Apart :
      (nodes : List Node) (sim : Simulator k.LabelSelector) (pod : Pod k.LabelSelector) (n : Node)
      → Memᴰ n nodes
      → can_schedule_pod_on_node k sim pod n ≡ some true
      → All (λ p. Apart nodes sim p (record pod { node_name = n.name })) sim.pending_pods
  admitted-Apart nodes sim pod n m h =
      All-map (λ p a. (n, m, refl, a)) sim.pending_pods
        (All-swap (term_hits k sim pod.name n) (terms_of pod.pod_anti_affinity) sim.pending_pods
          (can_schedule_pod_on_node-IsAdmitted k sim pod n h).apart)

  some_eq : (s r : States k build) → some s ≡ some r → s ≡ r
  some_eq s r h = ground arith

  place-Apart :
      (nodes ns : List Node) (s r : States k build)
      → All (λ n. Memᴰ n nodes) ns
      → Pairwise (Apart nodes s.1) s.1.pending_pods
      → place k build ns s ≡ some r
      → Pairwise (Apart nodes s.1) r.1.pending_pods
  unfolding place append_pending_pod append_to_be_deleted_pod is_pending_match
  place-Apart nodes [] s r m a h =
      subst (λ (x : States k build). Pairwise (Apart nodes s.1) x.1.pending_pods) (some_eq s r h) a
  place-Apart nodes (n ∷ ns) (states, sim) r (m, ms) a h =
      let pod = build n.name (lookup n.name states) in
      elim (Option-cases (can_schedule_pod_on_node k sim pod n)) [
        | inl e ↦ absurd (ground arith)
        | inr (false, e) ↦
            place-Apart nodes ns (delete n.name states, append_to_be_deleted_pod pod sim) r ms a
              (ground arith)
        | inr (true, e) ↦
            place-Apart nodes ns
              (states, append_pending_pod (record pod { node_name = n.name }) sim) r ms
              (Pairwise-snoc (Apart nodes sim) (record pod { node_name = n.name }) sim.pending_pods
                a (admitted-Apart nodes sim pod n m e))
              (ground arith)
      ]

  place-lookup :
      (ns : List Node) (s r : States k build)
      → place k build ns s ≡ some r
      → (name : String) (t : WorkerTemplate V) → lookup name r.0 ≡ some t
      → lookup name s.0 ≡ some t
  unfolding place
  place-lookup [] s r h name t l = ground arith
  place-lookup (n ∷ ns) (states, sim) r h name t l =
      let pod = build n.name (lookup n.name states) in
      elim (Option-cases (can_schedule_pod_on_node k sim pod n)) [
        | inl e ↦ absurd (ground arith)
        | inr (false, e) ↦
            let kept =
              place-lookup ns (delete n.name states, append_to_be_deleted_pod pod sim) r
                (ground arith) name t l in
            ground (arith, lookup-delete n.name name states, kept)
        | inr (true, e) ↦
            place-lookup ns (states, append_pending_pod (record pod { node_name = n.name }) sim) r
              (ground arith) name t l
      ]

  -- The pods that the simulation of a whole group keeps are pairwise compatible: no required
  -- anti-affinity term of a later one selects an earlier one in the topology of its node.
  pub simulate-Apart :
      (w : WorkerSpec V) (nodes : List Node) (r : States k build)
      → simulate k build w nodes ≡ some r
      → Pairwise (Apart (by_name k build nodes) (new_simulator nodes)) r.1.pending_pods
  unfolding simulate new_simulator
  simulate-Apart w nodes r h =
      place-Apart (by_name k build nodes) (by_name k build nodes)
        (parse_expect_state_with_node w nodes, new_simulator nodes) r
        (All-self (by_name k build nodes)) tt h

  -- Scheduling only leaves nodes out: a worker that it keeps has the state that the selection of
  -- nodes alone gives it.
  pub parse_expect_state_by_scheduler_refines :
      (w : WorkerSpec V) (nodes : List Node) (states : List (String × WorkerTemplate V))
      (name : String) (t : WorkerTemplate V)
      → parse_expect_state_by_scheduler k build w (some nodes) ≡ some states
      → lookup name states ≡ some t
      → lookup name (parse_expect_state_with_node w nodes) ≡ some t
  unfolding parse_expect_state_by_scheduler simulate
  parse_expect_state_by_scheduler_refines w [] states name t h l = ground arith
  parse_expect_state_by_scheduler_refines w (n ∷ ns) states name t h l =
      elim (Option-cases (simulate k build w (n ∷ ns))) [
        | inl e ↦ absurd (ground arith)
        | inr (r, e) ↦
            place-lookup (by_name k build (n ∷ ns))
              (parse_expect_state_with_node w (n ∷ ns), new_simulator (n ∷ ns)) r e name t
              (ground arith)
      ]
