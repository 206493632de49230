-- ===== src/Sync/Affinity/Laws.antt =====
-- TruncateSyncAffinityIfNeeded of pkg/utils/sync.go on an affinity that it has cut before.
use juicefs_operator.Base.{
  ◌>>=◌, Option, none, some, [], ◌∷◌, ◌≡◌, refl, arith, length, subst, sym, if_ind, ◌≤◌, str_eq,
}
use juicefs_operator.Base.Text.{Text, codes, contains_text}
use juicefs_operator.Labels.{
  truncate_label_value, truncate_label_value_with_length, truncate_label_value_with_length-le,
}
use juicefs_operator.Sync.Affinity.{
  each, each_in, label_entry, cut_values, expression, selector, handle_term, weighted, terms,
  truncate_sync_affinity,
}

abbrev pub SettledBy : {A : Type 0} → (A → Option A) → Option A → Type 0
SettledBy f none = Unit
SettledBy f (some y) = f y ≡ some y

-- What a run gives, another run leaves as it is.
abbrev pub Settles : {A : Type 0} → (A → Option A) → Type 0
Settles {A} f = (x : A) → SettledBy f (f x)

pub settled : {A : Type 0} (f : A → Option A) → Settles f → (x y : A) → f x ≡ some y → f y ≡ some y
settled f h x y e = subst (SettledBy f) e (h x)

-- A result of one and of two runs.
built-SettledBy :
    {A C : Type 0} (f : C → Option C) (a : Option A) (mk : A → C)
    → ((x : A) → a ≡ some x → f (mk x) ≡ some (mk x))
    → SettledBy f (a >>= λ x. some (mk x))
built-SettledBy f none mk h = tt
built-SettledBy f (some x) mk h = h x refl

joined-SettledBy :
    {A B C : Type 0} (f : C → Option C) (a : Option A) (b : Option B) (mk : A → B → C)
    → ((x : A) (y : B) → a ≡ some x → b ≡ some y → f (mk x y) ≡ some (mk x y))
    → SettledBy f (a >>= λ x. b >>= λ y. some (mk x y))
joined-SettledBy f none b mk h = tt
joined-SettledBy f (some x) none mk h = tt
joined-SettledBy f (some x) (some y) mk h = h x y refl refl

each-Settles : {A : Type 0} (f : A → Option A) → Settles f → Settles (each f)
unfolding each
each-Settles f h [] = refl
each-Settles f h (x ∷ xs) = joined-SettledBy (each f) (f x) (each f xs) ◌∷◌ (λ y ys ey eys.
    rw (settled f h x y ey) (rw (subst (SettledBy (each f)) eys (each-Settles f h xs)) refl))

each_in-Settles : {A : Type 0} (f : A → Option A) → Settles f → Settles (each_in f)
unfolding each_in
each_in-Settles f h none = refl
each_in-Settles f h (some x) =
    built-SettledBy (each_in f) (f x) some (λ y ey. rw (settled f h x y ey) refl)

truncate-fits :
    (cal_md5 : Text → Text) (s : Text) → length s ≤ 63 → truncate_label_value cal_md5 s ≡ some s
unfolding truncate_label_value truncate_label_value_with_length
truncate-fits cal_md5 s h = ground (arith, h)

module _ (cal_md5 : Text → Text) (is_md5 : (s : Text) → length (cal_md5 s) ≡ 32) where
  truncate-Settles : Settles (truncate_label_value cal_md5)
  unfolding truncate_label_value
  truncate-Settles x =
      let (t, e, n, _) =
        truncate_label_value_with_length-le cal_md5 x 63 (is_md5 x) (omega arith) in
      subst (SettledBy (truncate_label_value cal_md5)) (sym e) (truncate-fits cal_md5 t n)

  label_entry-Settles : Settles (label_entry cal_md5)
  unfolding label_entry
  label_entry-Settles (k, v) =
      if_ind (SettledBy (label_entry cal_md5)) (contains_text (codes k) (codes "juicefs.io/sync"))
        (λ h.
          built-SettledBy (label_entry cal_md5) (truncate_label_value cal_md5 v) (λ w. (k, w))
            (λ w e. rw h (rw (settled (truncate_label_value cal_md5) truncate-Settles v w e) refl)))
        (λ h. rw h refl)

  cut_values-Settles : Settles (cut_values cal_md5)
  unfolding cut_values
  cut_values-Settles [] = tt
  cut_values-Settles (v ∷ vs) =
      built-SettledBy (cut_values cal_md5) (truncate_label_value cal_md5 v) (λ w. w ∷ [])
        (λ w e. rw (settled (truncate_label_value cal_md5) truncate-Settles v w e) refl)

  expression-Settles : Settles (expression cal_md5)
  unfolding expression
  expression-Settles e =
      if_ind (SettledBy (expression cal_md5)) (str_eq e.key "juicefs.io/sync")
        (λ h.
          built-SettledBy (expression cal_md5) (cut_values cal_md5 e.values)
            (λ vs. record e { values = vs })
            (λ w ew.
              rw h (rw (settled (cut_values cal_md5) cut_values-Settles e.values w ew) refl)))
        (λ h. rw h refl)

  selector-Settles : Settles (selector cal_md5)
  unfolding selector
  selector-Settles s =
      joined-SettledBy (selector cal_md5) (each (label_entry cal_md5) s.match_labels)
        (each (expression cal_md5) s.match_expressions)
        (λ ls es. record { match_labels = ls; match_expressions = es })
        (λ ls es h k.
          rw
            (settled (each (label_entry cal_md5)) (each-Settles _ label_entry-Settles)
              s.match_labels ls h)
            (rw
              (settled (each (expression cal_md5)) (each-Settles _ expression-Settles)
                s.match_expressions es k)
              refl))

  handle_term-Settles : Settles (handle_term cal_md5)
  unfolding handle_term
  handle_term-Settles t =
      built-SettledBy (handle_term cal_md5) (each_in (selector cal_md5) t.label_selector)
        (λ s. record t { label_selector = s })
        (λ s h.
          rw
            (settled (each_in (selector cal_md5)) (each_in-Settles _ selector-Settles)
              t.label_selector s h)
            refl)

  weighted-Settles : Settles (weighted cal_md5)
  unfolding weighted
  weighted-Settles w =
      built-SettledBy (weighted cal_md5) (handle_term cal_md5 w.term) (λ t. record w { term = t })
        (λ t h. rw (settled (handle_term cal_md5) handle_term-Settles w.term t h) refl)

  terms-Settles : Settles (terms cal_md5)
  unfolding terms
  terms-Settles t =
      joined-SettledBy (terms cal_md5) (each (weighted cal_md5) t.preferred)
        (each (handle_term cal_md5) t.required) (λ ps rs. record { preferred = ps; required = rs })
        (λ ps rs h k.
          rw (settled (each (weighted cal_md5)) (each-Settles _ weighted-Settles) t.preferred ps h)
            (rw
              (settled (each (handle_term cal_md5)) (each-Settles _ handle_term-Settles) t.required
                rs k)
              refl))

  -- An affinity that was cut is left as it is by another cut.
  pub truncate_sync_affinity-Settles :
      {V : Type 0} → Settles (truncate_sync_affinity cal_md5 {V = V})
  unfolding truncate_sync_affinity
  truncate_sync_affinity-Settles a =
      joined-SettledBy (truncate_sync_affinity cal_md5)
        (each_in (terms cal_md5) a.pod_anti_affinity) (each_in (terms cal_md5) a.pod_affinity)
        (λ anti pods. record a { pod_anti_affinity = anti; pod_affinity = pods })
        (λ anti pods h k.
          rw
            (settled (each_in (terms cal_md5)) (each_in-Settles _ terms-Settles) a.pod_anti_affinity
              anti h)
            (rw
              (settled (each_in (terms cal_md5)) (each_in-Settles _ terms-Settles) a.pod_affinity
                pods k)
              refl))
