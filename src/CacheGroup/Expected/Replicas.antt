-- ===== src/CacheGroup/Expected/Replicas.antt =====
-- The workers of a cache group with a number of replicas (parseExpectStateByReplicas).
use juicefs_operator.Base.{
  ℕ, zero, suc, ◌+◌, ◌≤◌, ◌<◌, String, str_append, str_eq, str_eq_iff, ◌≡◌, refl, false, none, some,
  List, [], ◌∷◌, length, lookup, insert, lookup-insert, arith, Bool-cases, inl, inr, subst,
}
use native.Mathlib.Nat.{eq-or-lt_of_le}
use text.Mathlib.TextLemmas.{append_cancel_left}
use juicefs_operator.CacheGroup.Expected.{
  WorkerTemplate, WorkerSpec, replica_name, replica_states, parse_expect_state_by_replicas,
}

length-insert :
    {A : Type 0} (k : String) (v : A) (m : List (String × A))
    → lookup k m ≡ none
    → length (insert k v m) ≡ suc (length m)
length-insert k v [] h = refl
length-insert k v ((j, w) ∷ m) h = ground (arith, length-insert k v m)

module _ (show : ℕ → String) (injective : (i j : ℕ) → show i ≡ show j → i ≡ j) (name : String) where
  replica_name-inj : (i j : ℕ) → replica_name show name i ≡ replica_name show name j → i ≡ j
  replica_name-inj i j h = injective i j (
      append_cancel_left "-" (show i) (show j) (
        append_cancel_left name (str_append "-" (show i)) (str_append "-" (show j)) (
          append_cancel_left "juicefs-cg-worker-" (str_append name (str_append "-" (show i)))
            (str_append name (str_append "-" (show j))) h)))

  names_differ :
      (i j : ℕ) → suc i ≤ j → str_eq (replica_name show name i) (replica_name show name j) ≡ false
  names_differ i j l =
      elim (Bool-cases (str_eq (replica_name show name i) (replica_name show name j))) [
        | inl e ↦ absurd (omega (arith, replica_name-inj i j ((str_eq_iff _ _).0 e)))
        | inr e ↦ e
      ]

  module _ {V : Type 0} (w : WorkerSpec V) where
    abbrev States : Type 0
    States = List (String × WorkerTemplate V)

    replica_states-length :
        (i n : ℕ) (m : States)
        → ((j : ℕ) → i ≤ j → lookup (replica_name show name j) m ≡ none)
        → length (replica_states show name w i n m) ≡ n + length m
    unfolding replica_states
    replica_states-length i zero m h = omega arith
    replica_states-length i (suc n) m h =
        let k = replica_name show name i in
        let fresh : (j : ℕ)
            → suc i ≤ j
            → lookup (replica_name show name j) (insert k w.template m) ≡ none =
          λ j l. ground (
            arith,
            lookup-insert k (replica_name show name j) w.template m,
            names_differ i j l,
            h j (omega arith),
          ) in
        omega (
          arith,
          length-insert k w.template m (h i (omega arith)),
          replica_states-length (suc i) n (insert k w.template m) fresh,
        )

    replica_states-kept :
        (i n : ℕ) (m : States) (k : String)
        → lookup k m ≡ some w.template
        → lookup k (replica_states show name w i n m) ≡ some w.template
    unfolding replica_states
    replica_states-kept i zero m k h = h
    replica_states-kept i (suc n) m k h =
        let l = replica_name show name i in
        replica_states-kept (suc i) n (insert l w.template m) k
          (ground (arith, lookup-insert l k w.template m))

    replica_states-found :
        (i n j : ℕ) (m : States)
        → i ≤ j
        → j < i + n
        → lookup (replica_name show name j) (replica_states show name w i n m) ≡ some w.template
    unfolding replica_states
    replica_states-found i zero j m h l = absurd (omega arith)
    replica_states-found i (suc n) j m h l =
        let k = replica_name show name i in
        elim (eq-or-lt_of_le h) [
          | inl e ↦
              replica_states-kept (suc i) n (insert k w.template m) (replica_name show name j) (
                subst
                  (λ x. lookup (replica_name show name x) (insert k w.template m) ≡ some w.template)
                  e (ground (arith, lookup-insert k k w.template m, str_eq_iff k k)))
          | inr b ↦
              replica_states-found (suc i) n j (insert k w.template m) (omega arith) (omega arith)
        ]

    -- With printed numbers that differ, a group of `n` replicas expects exactly `n` workers, and the
    -- worker of each number below `n` with the group's own template.
    pub parse_expect_state_by_replicas-length :
        (n i : ℕ)
        → i < n
        → (length (parse_expect_state_by_replicas show name w n) ≡ n)
          × (lookup (replica_name show name i) (parse_expect_state_by_replicas show name w n)
              ≡ some w.template)
    unfolding parse_expect_state_by_replicas
    parse_expect_state_by_replicas-length n i h = (
      omega (arith, replica_states-length 0 n [] (λ j l. refl)),
      replica_states-found 0 n i [] (omega arith) (omega arith),
    )
