-- ===== src/CronSync/History.antt =====
-- Which jobs SyncHistory deletes.
use juicefs_operator.Base.{
  ℕ, zero, suc, ◌-◌, ◌≤◌, min, ◌≡◌, refl, List, [], ◌∷◌, ◌++◌, length, take, drop, All, arith, ltb,
  ap, if_ind,
}
use juicefs_operator.Base.Sort.{sort_by}
use juicefs_operator.Base.Sort.Order.{length-sort_by, take-before, sort_by-Sorted, Sorted}
use juicefs_operator.CronSync.{Job, created_before, expired_jobs}

take-drop {ℓ} : {A : Type ℓ} (n : ℕ) (xs : List A) → take n xs ++ drop n xs ≡ xs
take-drop zero xs = refl
take-drop (suc n) [] = refl
take-drop (suc n) (x ∷ xs) = ap (λ ys. x ∷ ys) (take-drop n xs)

length-drop {ℓ} : {A : Type ℓ} (n : ℕ) (xs : List A) → length (drop n xs) ≡ length xs - n
length-drop zero xs = omega arith
length-drop (suc n) [] = omega arith
length-drop (suc n) (x ∷ xs) = omega (arith, length-drop n xs)

abbrev pub NoNewer : Job → Job → Type 0
NoNewer a b = a.created_at ≤ b.created_at

created_before-Sorted : (jobs : List Job) → Sorted NoNewer (sort_by created_before jobs)
created_before-Sorted jobs =
    sort_by-Sorted created_before NoNewer (λ a b h. ground arith) (λ a b h. ground arith)
      (λ a b c h k. omega arith) jobs

-- How a history is divided: the jobs that are deleted and those that are kept are all of its jobs,
-- in the order of their creation.
pub record IsDivided (limit : ℕ) (jobs expired : List Job) : Type 0 where
  pub kept : List Job
  pub whole : expired ++ kept ≡ sort_by created_before jobs
  pub enough : length kept ≡ min (length jobs) limit
  pub oldest : All (λ e. All (NoNewer e) kept) expired

-- Of the jobs of one phase as many are kept as the limit allows, and no job that is deleted was
-- created after one that is kept.
pub expired_jobs-IsDivided :
    (limit : ℕ) (jobs : List Job) → IsDivided limit jobs (expired_jobs limit jobs)
unfolding expired_jobs
expired_jobs-IsDivided limit jobs =
    let sorted = sort_by created_before jobs in
    if_ind (IsDivided limit jobs) (ltb (length jobs) limit)
      (λ few. record {
        kept = sorted;
        whole = refl;
        enough = ground (arith, length-sort_by created_before jobs);
        oldest = tt;
      })
      (λ many. record {
        kept = drop (length jobs - limit) sorted;
        whole = take-drop (length jobs - limit) sorted;
        enough =
            ground
              (arith, length-drop (length jobs - limit) sorted, length-sort_by created_before jobs);
        oldest = take-before NoNewer (length jobs - limit) sorted (created_before-Sorted jobs);
      })
