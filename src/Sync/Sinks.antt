-- ===== src/Sync/Sinks.antt =====
-- The endpoints of a sync (api/v1/sync_types.go) and how they become the address, the environment
-- and the preparation of its pods: parseSinkValueToEnv, parseExternalSyncSink, parseJuiceFSSyncSink,
-- parseJuiceFSCeSyncSink and ParseSyncSink of pkg/utils/sync.go. Extra volumes are left out.
pub mod Parse
pub mod Secret
pub mod Held
pub mod Laws
pub mod Files
use juicefs_operator.Base.{
  ℕ, ◌-◌, String, str_append, Bool, true, false, not, ◌&&◌, ◌||◌, Option, none, some, List, [], ◌∷◌,
  ◌++◌, ◌==◌, if◌then◌else◌, is_some, str_eq, length, from_option,
}
use juicefs_operator.Base.Text.{Text, codes, text_eq, strip_prefix, split, join, ends_with}

-- A value that is written out, or taken from elsewhere: `value_from` names its source.
pub record SinkValue : Type 0 where
  pub value : String
  pub value_from : Option String

pub record FilesFrom : Type 0 where
  pub files : Option (List Text)
  pub file_path : Text

pub record External : Type 0 where
  pub uri : Text
  pub access_key : SinkValue
  pub secret_key : SinkValue
  pub files_from : Option FilesFrom
  pub krb5_keytab : SinkValue
  pub krb5_keytab_base64 : SinkValue
  pub krb5_principal : SinkValue

pub record JuiceFs : Type 0 where
  pub volume_name : Text
  pub token : SinkValue
  pub path : Text
  pub access_key : SinkValue
  pub secret_key : SinkValue
  pub auth_options : List Text
  pub files_from : Option FilesFrom
  pub console_url : Text

pub record JuiceFsCe : Type 0 where
  pub meta_url : Text
  pub meta_password : SinkValue
  pub path : Text
  pub files_from : Option FilesFrom

pub record Sink : Type 0 where
  pub external : Option External
  pub juicefs : Option JuiceFs
  pub juicefs_ce : Option JuiceFsCe

-- The two values of the argument `ref`.
pub data Ref : Type 0 where
  from to : Ref

abbrev pub ref_name : Ref → String
ref_name from = "FROM"
ref_name to = "TO"

abbrev pub is_to : Ref → Bool
is_to from = false
is_to to = true

-- Where an environment variable takes its value: a key of the sync's own secret, or the source that
-- the user named.
pub data EnvSource : Type 0 where
  sync_secret : (key : String) → EnvSource
  other_source : String → EnvSource

pub record Env : Type 0 where
  pub name : String
  pub source : EnvSource

pub record Parsed : Type 0 where
  pub uri : Text
  pub envs : List Env
  pub prepare_command : Text
  pub files_from : Option FilesFrom

-- net/url: parsing, printing and changing an address; `username` is empty for an address without a
-- user.
pub record Urls : Type 1 where
  pub Url : Type 0
  pub parse : Text → Option Url
  pub print : Url → Text
  pub scheme : Url → Text
  pub username : Url → Text
  pub with_user : Text → Text → Url → Url
  pub join_path : Text → List Text → Option Text

abbrev pub is_given : SinkValue → Bool
is_given v = not (str_eq v.value "") || is_some v.value_from

unfoldable pub parse_sink_value_to_env : SinkValue → String → List Env
parse_sink_value_to_env v key =
    if not (str_eq v.value "")
    then record { name = key; source = sync_secret key } ∷ []
    else elim v.value_from [
      | none ↦ []
      | some s ↦ record { name = key; source = other_source s } ∷ []
    ]

abbrev pub given_env : SinkValue → String → List Env
given_env v key = if is_given v then parse_sink_value_to_env v key else []

abbrev pub external_key : Ref → String → String
external_key ref name = str_append "EXTERNAL_" (str_append (ref_name ref) (str_append "_" name))

abbrev pub juicefs_key : Ref → String → String
juicefs_key ref name = str_append "JUICEFS_" (str_append (ref_name ref) (str_append "_" name))

abbrev pub ce_key : Ref → String → String
ce_key ref name = str_append "JUICEFS_CE_" (str_append (ref_name ref) (str_append "_" name))

abbrev pub dollar : String → Text
dollar key = b'$' ∷ codes key

-- `export NAME=$key`, with its line's end, for a value that is given.
abbrev pub exported : SinkValue → String → String → Text
exported v name key =
    if is_given v then codes "export " ++ codes name ++ codes "=" ++ dollar key ++ 10 ∷ [] else []

unfoldable pub kerberos_envs : External → Ref → List Env
kerberos_envs e ref =
    given_env e.krb5_keytab (external_key ref "KRB5KEYTAB")
    ++ given_env e.krb5_keytab_base64 (external_key ref "KRB5KEYTAB_BASE64")
    ++ given_env e.krb5_principal (external_key ref "KRB5PRINCIPAL")

unfoldable pub kerberos_command : External → Ref → Text
kerberos_command e ref =
    exported e.krb5_keytab "KRB5KEYTAB" (external_key ref "KRB5KEYTAB")
    ++ exported e.krb5_keytab_base64 "KRB5KEYTAB_BASE64" (external_key ref "KRB5KEYTAB_BASE64")
    ++ exported e.krb5_principal "KRB5PRINCIPAL" (external_key ref "KRB5PRINCIPAL")

abbrev pub credential_envs : External → Ref → List Env
credential_envs e ref =
    given_env e.access_key (external_key ref "ACCESS_KEY")
    ++ given_env e.secret_key (external_key ref "SECRET_KEY")

-- The words of `juicefs auth` for the user's options.
unfoldable pub auth_words : List Text → List Text
auth_words [] = []
auth_words (o ∷ os) =
    let rest = auth_words os in
    let opt = from_option o (strip_prefix (codes "--") o) in
    if text_eq opt (codes "token")
      || text_eq opt (codes "access-key")
      || text_eq opt (codes "secret-key")
    then rest
    else elim (split b'=' opt) [
      | [] ↦ rest
      | k ∷ [] ↦ (codes "--" ++ k) ∷ rest
      | k ∷ v ∷ [] ↦ (codes "--" ++ k) ∷ v ∷ rest
      | k ∷ v ∷ w ∷ ws ↦ (codes "--" ++ k) ∷ rest
    ]

abbrev pub credential_words : SinkValue → Text → String → List Text
credential_words v flag key = if is_given v then flag ∷ dollar key ∷ [] else []

unfoldable pub auth_command : JuiceFs → Ref → Text
unfolding auth_words
auth_command j ref =
    (if text_eq j.console_url [] then [] else codes "BASE_URL=" ++ j.console_url ++ codes " ")
    ++ join b' ' (
        codes "juicefs"
          ∷ codes "auth"
          ∷ j.volume_name
          ∷ credential_words j.token (codes "--token") (juicefs_key ref "TOKEN")
        ++ credential_words j.access_key (codes "--access-key") (juicefs_key ref "ACCESS_KEY")
        ++ credential_words j.secret_key (codes "--secret-key") (juicefs_key ref "SECRET_KEY")
        ++ auth_words j.auth_options)
