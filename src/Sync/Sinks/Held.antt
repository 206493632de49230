-- ===== src/Sync/Sinks/Held.antt =====
-- What NewSyncSecret (pkg/builder/sync_secret.go) puts in the secret against the environment that each
-- kind of endpoint has.
use juicefs_operator.Base.{
  String, ◌≡◌, Bool, true, false, Option, none, some, List, [], ◌∷◌, ◌++◌, str_eq, str_eq_iff,
  is_some, ◌⊎◌, if◌then◌else◌, Option-cases, lookup, insert, lookup-insert, All, All-append, arith,
  Bool-cases, inl, inr, sym, subst, if_ind,
}
use juicefs_operator.Sync.Sinks.{
  SinkValue, External, JuiceFs, JuiceFsCe, Sink, Ref, from, to, Env, sync_secret, other_source,
  Parsed, given_env, credential_envs, kerberos_envs, external_key, juicefs_key, ce_key,
  parse_sink_value_to_env,
}
use juicefs_operator.Sync.Sinks.Secret.{
  put, copy, gen_juicefs_secret_data, gen_external_secret_data, gen_juicefs_ce_secret_data,
  new_sync_secret,
}

abbrev pub Holds : List (String × String) → String → Type 0
Holds m k = is_some (lookup k m) ≡ true

abbrev pub envs_of : Option Parsed → List Env
envs_of none = []
envs_of (some p) = p.envs

-- What an environment variable takes from the secret is there.
abbrev pub Held : List (String × String) → Env → Type 0
Held m e = elim e.source [ sync_secret k ↦ Holds m k | other_source s ↦ Unit {0} ]

abbrev pub Keeps : List (String × String) → List (String × String) → Type 0
Keeps m n = (k : String) → Holds m k → Holds n k

insert-Keeps : (k v : String) (m : List (String × String)) → Keeps m (insert k v m)
insert-Keeps k v m j h = ground (arith, lookup-insert k j v m)

insert-Holds : (k v : String) (m : List (String × String)) → Holds (insert k v m) k
insert-Holds k v m = ground (arith, lookup-insert k k v m, str_eq_iff k k)

copy-Keeps : (dst src : List (String × String)) → Keeps dst (copy dst src)
unfolding copy
copy-Keeps dst [] k h = h
copy-Keeps dst ((j, v) ∷ src) k h = copy-Keeps (insert j v dst) src k (insert-Keeps j v dst k h)

copy-Holds : (dst src : List (String × String)) → Keeps src (copy dst src)
unfolding copy
copy-Holds dst [] k h = cc
copy-Holds dst ((j, v) ∷ src) k h = elim (Bool-cases (str_eq j k)) [
  | inl e ↦
      subst (λ i. Holds (copy (insert j v dst) src) i) ((str_eq_iff j k).0 e)
        (copy-Keeps (insert j v dst) src j (insert-Holds j v dst))
  | inr e ↦ copy-Holds (insert j v dst) src k (ground arith)
]

put-Keeps : (k : String) (v : SinkValue) (m : List (String × String)) → Keeps m (put k v m)
unfolding put
put-Keeps k v m j h =
    if_ind (λ n. Holds n j) (str_eq v.value "") (λ _. h) (λ _. insert-Keeps k v.value m j h)

-- An environment variable is dropped, taken from the user's source, or taken from the secret.
given_env-cases :
    (v : SinkValue) (key : String)
    → (given_env v key ≡ [])
      ⊎ ((s : String) × (given_env v key ≡ (record { name = key; source = other_source s } ∷ [])))
      ⊎ ((str_eq v.value "" ≡ false)
          × (given_env v key ≡ (record { name = key; source = sync_secret key } ∷ [])))
unfolding parse_sink_value_to_env
given_env-cases v key = elim (Bool-cases (str_eq v.value "")) [
  | inl e ↦ elim (Option-cases v.value_from) [
    | inl n ↦ inl (ground arith)
    | inr (s, n) ↦ inr (inl (s, ground arith))
  ]
  | inr e ↦ inr (inr (e, ground arith))
]

given_env-Held :
    (v : SinkValue) (key : String) (m n : List (String × String))
    → Keeps (put key v m) n
    → All (Held n) (given_env v key)
unfolding put
given_env-Held v key m n keep = elim (given_env-cases v key) [
  | inl e ↦ subst (All (Held n)) (sym e) tt
  | inr (inl (s, e)) ↦ subst (All (Held n)) (sym e) (tt, tt)
  | inr (inr (h, e)) ↦
      subst (All (Held n)) (sym e) (keep key (ground (arith, insert-Holds key v.value m)), tt)
]

abbrev put_all : List (String × SinkValue) → List (String × String) → List (String × String)
put_all [] m = m
put_all ((k, v) ∷ es) m = put_all es (put k v m)

put_all-Keeps :
    (es : List (String × SinkValue)) (m : List (String × String)) → Keeps m (put_all es m)
put_all-Keeps [] m k h = h
put_all-Keeps ((j, v) ∷ es) m k h = put_all-Keeps es (put j v m) k (put-Keeps j v m k h)

entries-Held :
    (es : List (String × SinkValue)) (m n : List (String × String))
    → Keeps (put_all es m) n
    → All (λ e. All (Held n) (given_env e.1 e.0)) es
entries-Held [] m n keep = tt
entries-Held ((k, v) ∷ es) m n keep = (
  given_env-Held v k m n (λ j h. keep j (put_all-Keeps es (put k v m) j h)),
  entries-Held es (put k v m) n keep,
)

pub external-Held :
    (e : External) (ref : Ref) (n : List (String × String))
    → Keeps (gen_external_secret_data (some e) ref) n
    → All (Held n) (credential_envs e ref) × All (Held n) (kerberos_envs e ref)
unfolding gen_external_secret_data kerberos_envs
external-Held e ref n keep =
    let h =
      entries-Held
        ((external_key ref "ACCESS_KEY", e.access_key)
          ∷ (external_key ref "SECRET_KEY", e.secret_key)
          ∷ (external_key ref "KRB5KEYTAB", e.krb5_keytab)
          ∷ (external_key ref "KRB5KEYTAB_BASE64", e.krb5_keytab_base64)
          ∷ (external_key ref "KRB5PRINCIPAL", e.krb5_principal)
          ∷ [])
        [] n keep in
    (
      All-append (Held n) _ _ h.0 h.1.0,
      All-append (Held n) _ _ (All-append (Held n) _ _ h.1.1.0 h.1.1.1.0) h.1.1.1.1.0,
    )

abbrev juicefs_envs : JuiceFs → Ref → List Env
juicefs_envs j ref =
    given_env j.token (juicefs_key ref "TOKEN")
    ++ given_env j.access_key (juicefs_key ref "ACCESS_KEY")
    ++ given_env j.secret_key (juicefs_key ref "SECRET_KEY")

pub juicefs-Held :
    (j : JuiceFs) (ref : Ref) (n : List (String × String))
    → Keeps (gen_juicefs_secret_data (some j) ref) n
    → All (Held n) (juicefs_envs j ref)
unfolding gen_juicefs_secret_data
juicefs-Held j ref n keep =
    let h =
      entries-Held
        ((juicefs_key ref "TOKEN", j.token)
          ∷ (juicefs_key ref "ACCESS_KEY", j.access_key)
          ∷ (juicefs_key ref "SECRET_KEY", j.secret_key)
          ∷ [])
        [] n keep in
    All-append (Held n) _ _ (All-append (Held n) _ _ h.0 h.1.0) h.1.1.0

pub ce-Held :
    (j : JuiceFsCe) (ref : Ref) (n : List (String × String))
    → Keeps (gen_juicefs_ce_secret_data (some j) ref) n
    → All (Held n) (given_env j.meta_password (ce_key ref "META_PASSWORD"))
unfolding gen_juicefs_ce_secret_data
ce-Held j ref n keep =
    (entries-Held ((ce_key ref "META_PASSWORD", j.meta_password) ∷ []) [] n keep).0

-- The endpoint that is parsed under `ref`.
abbrev pub side : Ref → Sink → Sink → Sink
side from source target = source
side to source target = target

-- The secret of a sync holds what each endpoint puts in.
pub record Complete (ref : Ref) (s : Sink) (n : List (String × String)) : Type 0 where
  pub external_kept : Keeps (gen_external_secret_data s.external ref) n
  pub juicefs_kept : Keeps (gen_juicefs_secret_data s.juicefs ref) n
  pub ce_kept : Keeps (gen_juicefs_ce_secret_data s.juicefs_ce ref) n

abbrev copies : List (String × String) → List (List (String × String)) → List (String × String)
copies dst [] = dst
copies dst (m ∷ ms) = copies (copy dst m) ms

copies-Keeps :
    (dst : List (String × String)) (ms : List (List (String × String))) → Keeps dst (copies dst ms)
copies-Keeps dst [] k h = h
copies-Keeps dst (m ∷ ms) k h = copies-Keeps (copy dst m) ms k (copy-Keeps dst m k h)

copies-all :
    (dst : List (String × String)) (ms : List (List (String × String)))
    → All (λ m. Keeps m (copies dst ms)) ms
copies-all dst [] = tt
copies-all dst (m ∷ ms) =
    (λ k h. copies-Keeps (copy dst m) ms k (copy-Holds dst m k h), copies-all (copy dst m) ms)

pub new_sync_secret-Complete :
    (ref : Ref) (distributed : Bool) (keys : String × String) (source target : Sink)
    → Complete ref (side ref source target) (new_sync_secret distributed keys source target)
unfolding new_sync_secret
new_sync_secret-Complete ref distributed (a, b) source target =
    let base : List (String × String) =
      if distributed then ("id_rsa", a) ∷ ("id_rsa.pub", b) ∷ [] else [] in
    let h = copies-all base (
      gen_juicefs_secret_data source.juicefs from
      ∷ gen_juicefs_secret_data target.juicefs to
      ∷ gen_external_secret_data source.external from
      ∷ gen_external_secret_data target.external to
      ∷ gen_juicefs_ce_secret_data target.juicefs_ce to
      ∷ gen_juicefs_ce_secret_data source.juicefs_ce from
      ∷ []) in
    elim ref
      as (λ r.
        Complete r (side r source target) (new_sync_secret distributed (a, b) source target)) [
          | from ↦ record { external_kept = h.1.1.0; juicefs_kept = h.0; ce_kept = h.1.1.1.1.1.0 }
          | to ↦ record { external_kept = h.1.1.1.0; juicefs_kept = h.1.0; ce_kept = h.1.1.1.1.0 }
        ]
