-- ===== src/Sync/Template/Shared.antt =====
-- The affinity that the pods of a sync share (pkg/builder/sync_pod.go: newWorkerPod, NewWorkerPods).
use juicefs_operator.Base.{
  ◌>>=◌, ℕ, zero, suc, ◌-◌, Option, none, some, List, [], ◌∷◌, ◌≡◌, refl, ap, sym, length, map, leb,
  if◌then◌else◌, Option-cases, Bool-cases, ◌∙◌, inl, inr, from_option,
}
use juicefs_operator.Base.Text.{Text}
use juicefs_operator.Labels.{truncate_label_value}
use juicefs_operator.Sync.Affinity.{Affinity, each, truncate_sync_affinity}
use juicefs_operator.Sync.Affinity.Laws.{truncate_sync_affinity-Settles, settled}
use juicefs_operator.Sync.Template.{
  SyncPodBuilder, SyncPod, Outside, kept, after_cut, placed, worker_pod, new_worker_pod,
  worker_loop, new_worker_pods, spread,
}

abbrev from : ℕ → ℕ → List ℕ
from i zero = []
from i (suc n) = i ∷ from (suc i) n

-- The numbers of the workers.
abbrev pub workers : Option ℕ → List ℕ
workers none = []
workers (some n) = if leb n 1 then [] else from 1 (n - 1)

kept-again : {A : Type 0} (a : Option A) (cut : A) → kept (kept a cut) cut ≡ kept a cut
kept-again none cut = refl
kept-again (some a) cut = refl

module _ {V : Type 0} where
  abbrev pub pod_of : Option (SyncPodBuilder V × SyncPod V) → Option (SyncPod V)
  pod_of none = none
  pod_of (some (b, p)) = some p

  abbrev pub pods_of : Option (SyncPodBuilder V × List (SyncPod V)) → Option (List (SyncPod V))
  pods_of none = none
  pods_of (some (b, ps)) = some ps

  pods_of-cons :
      (x : Option (SyncPodBuilder V × List (SyncPod V))) (p : SyncPod V)
      → pods_of (x >>= λ (b, ps). some (b, p ∷ ps)) ≡ (pods_of x >>= λ ps. some (p ∷ ps))
  pods_of-cons none p = refl
  pods_of-cons (some (b, ps)) p = refl

  module _ (o : Outside V) (is_md5 : (s : Text) → length (o.cal_md5 s) ≡ 32) where
    placed_kept :
        (d : Affinity V) (a : Option (Affinity V)) (cut : Affinity V)
        → truncate_sync_affinity o.cal_md5 (from_option d a) ≡ some cut
        → truncate_sync_affinity o.cal_md5 (from_option d (kept a cut)) ≡ some cut
    placed_kept d none cut h = h
    placed_kept d (some a) cut h =
        settled (truncate_sync_affinity o.cal_md5) (truncate_sync_affinity-Settles o.cal_md5 is_md5)
          a cut h

    placed_again :
        (b : SyncPodBuilder V) (cut : Affinity V)
        → placed o b ≡ some cut
        → placed o (after_cut b cut) ≡ some cut
    unfolding placed spread
    placed_again b cut h = placed_kept (spread b) b.affinity cut h

    step :
        (b : SyncPodBuilder V) (label : Text) (cut : Affinity V)
        → truncate_label_value o.cal_md5 b.name ≡ some label
        → placed o b ≡ some cut
        → (i : ℕ) → new_worker_pod o b i ≡ some (after_cut b cut, worker_pod o b i label cut)
    unfolding new_worker_pod
    step b label cut hl hc i = rw hl (rw hc refl)

    loop_shared :
        (b : SyncPodBuilder V) (label : Text) (cut : Affinity V)
        → truncate_label_value o.cal_md5 b.name ≡ some label
        → placed o b ≡ some cut
        → (n i : ℕ)
        → pods_of (worker_loop o b i n) ≡ some (map (λ j. worker_pod o b j label cut) (from i n))
    unfolding worker_loop worker_pod
    loop_shared b label cut hl hc zero i = refl
    loop_shared b label cut hl hc (suc n) i = rw (step b label cut hl hc i) (
        pods_of-cons (worker_loop o (after_cut b cut) (suc i) n) (worker_pod o b i label cut)
        ∙ ap (λ x. x >>= λ ps. some (worker_pod o b i label cut ∷ ps))
            (loop_shared (after_cut b cut) label cut hl (placed_again b cut hc) n (suc i)))

    each_shared :
        (b : SyncPodBuilder V) (label : Text) (cut : Affinity V)
        → truncate_label_value o.cal_md5 b.name ≡ some label
        → placed o b ≡ some cut
        → (js : List ℕ)
        → each (λ j. pod_of (new_worker_pod o b j)) js
          ≡ some (map (λ j. worker_pod o b j label cut) js)
    unfolding each new_worker_pod
    each_shared b label cut hl hc [] = refl
    each_shared b label cut hl hc (j ∷ js) =
        rw hl (rw hc (rw (each_shared b label cut hl hc js) refl))

    fails :
        (b : SyncPodBuilder V) (n i : ℕ)
        → ((j : ℕ) → new_worker_pod o b j ≡ none)
        → pods_of (worker_loop o b i n) ≡ each (λ j. pod_of (new_worker_pod o b j)) (from i n)
    unfolding worker_loop each
    fails b zero i h = refl
    fails b (suc n) i h = rw (h i) refl

    loop_each :
        (b : SyncPodBuilder V) (n i : ℕ)
        → pods_of (worker_loop o b i n) ≡ each (λ j. pod_of (new_worker_pod o b j)) (from i n)
    unfolding new_worker_pod
    loop_each b n i = elim (Option-cases (truncate_label_value o.cal_md5 b.name)) [
      | inl e ↦ fails b n i (λ j. rw e refl)
      | inr (label, hl) ↦ elim (Option-cases (placed o b)) [
        | inl e ↦ fails b n i (λ j. rw hl (rw e refl))
        | inr (cut, hc) ↦
            loop_shared b label cut hl hc n i ∙ sym (each_shared b label cut hl hc (from i n))
      ]
    ]

    counted :
        (b : SyncPodBuilder V) (r : Option ℕ)
        → pods_of (elim r [
          | none ↦ some (b, [])
          | some n ↦ if leb n 1 then some (b, []) else worker_loop o b 1 (n - 1)
        ])
          ≡ each (λ j. pod_of (new_worker_pod o b j)) (workers r)
    unfolding each
    counted b none = refl
    counted b (some n) = elim (Bool-cases (leb n 1)) [
      | inl e ↦ rw e refl
      | inr e ↦ rw e (loop_each b (n - 1) 1)
    ]

  -- The worker pods are built one after another, and each build cuts the affinity that the resource
  -- holds. With a hash of 32 characters they are the pods that each build gives on the resource as it
  -- was at first, and one fails if and only if the other does.
  pub new_worker_pods-each :
      (o : Outside V) (b : SyncPodBuilder V)
      → ((s : Text) → length (o.cal_md5 s) ≡ 32)
      → pods_of (new_worker_pods o b)
        ≡ each (λ j. pod_of (new_worker_pod o b j)) (workers b.replicas)
  unfolding new_worker_pods each
  new_worker_pods-each o b is_md5 = counted o is_md5 b b.replicas
