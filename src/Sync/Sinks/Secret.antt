-- ===== src/Sync/Sinks/Secret.antt =====
-- NewSyncSecret of pkg/builder/sync_secret.go: what the secret of a sync holds. `keys` is the pair
-- of texts that GenerateSSHKeyPair returns.
use juicefs_operator.Base.{
  String, Bool, Option, none, some, List, [], ◌∷◌, if◌then◌else◌, str_eq, insert,
}
use juicefs_operator.Sync.Sinks.{
  SinkValue, External, JuiceFs, JuiceFsCe, Sink, Ref, from, to, external_key, juicefs_key, ce_key,
}

-- `data[key] = value`, for a value that is not empty.
unfoldable pub put : String → SinkValue → List (String × String) → List (String × String)
put key v m = if str_eq v.value "" then m else insert key v.value m

unfoldable pub gen_juicefs_secret_data : Option JuiceFs → Ref → List (String × String)
unfolding put
gen_juicefs_secret_data none ref = []
gen_juicefs_secret_data (some j) ref =
    put (juicefs_key ref "SECRET_KEY") j.secret_key
      (put (juicefs_key ref "ACCESS_KEY") j.access_key (put (juicefs_key ref "TOKEN") j.token []))

unfoldable pub gen_external_secret_data : Option External → Ref → List (String × String)
unfolding put
gen_external_secret_data none ref = []
gen_external_secret_data (some e) ref = put (external_key ref "KRB5PRINCIPAL") e.krb5_principal (
    put (external_key ref "KRB5KEYTAB_BASE64") e.krb5_keytab_base64 (
      put (external_key ref "KRB5KEYTAB") e.krb5_keytab (
        put (external_key ref "SECRET_KEY") e.secret_key
          (put (external_key ref "ACCESS_KEY") e.access_key []))))

unfoldable pub gen_juicefs_ce_secret_data : Option JuiceFsCe → Ref → List (String × String)
unfolding put
gen_juicefs_ce_secret_data none ref = []
gen_juicefs_ce_secret_data (some j) ref = put (ce_key ref "META_PASSWORD") j.meta_password []

-- `maps.Copy(dst, src)`
unfoldable pub copy : List (String × String) → List (String × String) → List (String × String)
copy dst [] = dst
copy dst ((k, v) ∷ src) = copy (insert k v dst) src

unfoldable pub new_sync_secret :
    (distributed : Bool) → (keys : String × String) → Sink → Sink → List (String × String)
unfolding gen_juicefs_secret_data gen_external_secret_data gen_juicefs_ce_secret_data copy
new_sync_secret distributed (id_rsa, id_rsa_pub) source target =
    let base = if distributed then ("id_rsa", id_rsa) ∷ ("id_rsa.pub", id_rsa_pub) ∷ [] else [] in
    let d1 = copy base (gen_juicefs_secret_data source.juicefs from) in
    let d2 = copy d1 (gen_juicefs_secret_data target.juicefs to) in
    let d3 = copy d2 (gen_external_secret_data source.external from) in
    let d4 = copy d3 (gen_external_secret_data target.external to) in
    let d5 = copy d4 (gen_juicefs_ce_secret_data target.juicefs_ce to) in
    copy d5 (gen_juicefs_ce_secret_data source.juicefs_ce from)
