-- ===== src/CacheGroup/Volumes.antt =====
-- The volume claims of a worker: ensurePVCsForWorker, ensurePVCForVolumeClaimTemplate and
-- deletePVCForCacheGroup of internal/controller/cachegroup_controller.go. Quantities of storage are
-- numbers of bytes; calls that only read are not listed.
pub mod Cleaning
pub mod Laws
use juicefs_operator.Base.{
  ℕ, String, str_append, Bool, true, false, not, ◌&&◌, Option, none, some, List, [], ◌∷◌, ◌++◌, leb,
  str_eq, if◌then◌else◌, is_some, from_option, filterb, any, map,
}
use juicefs_operator.Base.Text.{Text, codes, text_eq, has_prefix}
use juicefs_operator.Kube.{ApiError, not_found}
use juicefs_operator.CacheGroup.{CacheGroup}
use juicefs_operator.CacheGroup.Calls.{
  Call, create_pvc, update_pvc, delete_pvc, create_clean_job, Failure, api, invalid_spec, Run, done,
  fail, make, answered, ◌>>◌,
}

-- The claim that a Get finds: the storage that it requests, and whether the cache group controls it.
pub record Claim : Type 0 where
  pub storage : Option ℕ
  pub controlled : Bool

pub data Got : Type 0 where
  failed : ApiError → Got
  found : Claim → Got

pub record ClaimTemplate : Type 0 where
  pub name : String
  pub storage : Option ℕ

abbrev pub gen_pvc_name : String → String → String
gen_pvc_name template node = str_append template (str_append "-" node)

-- What is done about a claim that is there, with the answer to its update.
unfoldable pub expand : String → ClaimTemplate → Claim → Option ApiError → Run
expand name t c answer = if not c.controlled then done else elim t.storage [
  | none ↦ done
  | some n ↦ if leb n (from_option 0 c.storage) then done else answered (update_pvc name n) answer
]

-- `written` answers the creation or the update.
unfoldable pub ensure_pvc_for_volume_claim_template :
    (worker : String) → Option ClaimTemplate → Got → (written : Option ApiError) → Run
unfolding expand
ensure_pvc_for_volume_claim_template worker none got written = fail invalid_spec
ensure_pvc_for_volume_claim_template worker (some t) (found c) written =
    expand (gen_pvc_name t.name worker) t c written
ensure_pvc_for_volume_claim_template worker (some t) (failed not_found) written =
    answered (create_pvc (gen_pvc_name t.name worker)) written
ensure_pvc_for_volume_claim_template worker (some t) (failed e) written = fail (api e)

pub data CacheDir : Type 0 where
  host_path pvc : CacheDir
  volume_claim_templates : Option ClaimTemplate → CacheDir

-- The answers are those about the claim of a name.
unfoldable pub ensure_pvcs_for_worker :
    (String → Got) → (String → Option ApiError) → String → List CacheDir → Run
unfolding ensure_pvc_for_volume_claim_template
ensure_pvcs_for_worker get write worker [] = done
ensure_pvcs_for_worker get write worker (volume_claim_templates (some t) ∷ dirs) =
    let name = gen_pvc_name t.name worker in
    ensure_pvc_for_volume_claim_template worker (some t) (get name) (write name)
    >> ensure_pvcs_for_worker get write worker dirs
ensure_pvcs_for_worker get write worker (volume_claim_templates none ∷ dirs) =
    fail invalid_spec >> ensure_pvcs_for_worker get write worker dirs
ensure_pvcs_for_worker get write worker (_ ∷ dirs) = ensure_pvcs_for_worker get write worker dirs

pub data Source : Type 0 where
  on_host other_source : Source
  of_claim : String → Source

pub record Volume : Type 0 where
  pub name : Text
  pub source : Source

abbrev pub is_cache_dir : Volume → Bool
is_cache_dir v = has_prefix (codes "jfs-cache-dir-") v.name

-- The deletion of a claim that a Get has answered.
unfoldable pub delete_found : String → Got → Option ApiError → Run
delete_found name (failed not_found) answer = done
delete_found name (failed e) answer = fail (api e)
delete_found name (found c) (some not_found) = if c.controlled then make (delete_pvc name) else done
delete_found name (found c) answer =
    if c.controlled then answered (delete_pvc name) answer else done

unfoldable pub delete_source : (String → Got) → (String → Option ApiError) → Source → Run
unfolding delete_found
delete_source get delete (of_claim c) = delete_found c (get c) (delete c)
delete_source get delete on_host = done
delete_source get delete other_source = done

unfoldable pub delete_pvc_for_cache_group :
    (get : String → Got) → (delete : String → Option ApiError) → List Volume → Run
unfolding delete_source
delete_pvc_for_cache_group get delete [] = done
delete_pvc_for_cache_group get delete (v ∷ vs) =
    (if is_cache_dir v then delete_source get delete v.source else done)
    >> delete_pvc_for_cache_group get delete vs
