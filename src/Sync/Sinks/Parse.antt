-- ===== src/Sync/Sinks/Parse.antt =====
-- parseExternalSyncSink, parseJuiceFSSyncSink, parseJuiceFSCeSyncSink and ParseSyncSink of
-- pkg/utils/sync.go.
use juicefs_operator.Base.{
  String, str_append, Bool, true, false, ◌&&◌, Option, none, some, List, [], ◌∷◌, ◌++◌, ◌==◌,
  if◌then◌else◌, is_some, length, ◌>>=◌,
}
use juicefs_operator.Base.Text.{Text, codes, text_eq, join, ends_with}
use juicefs_operator.Sync.{ParsedSink}
use juicefs_operator.Sync.Sinks.{
  FilesFrom, External, JuiceFs, JuiceFsCe, Sink, Ref, ref_name, Parsed, Urls, is_to, is_given,
  given_env, external_key, juicefs_key, ce_key, dollar, kerberos_envs, kerberos_command,
  credential_envs, auth_command,
}

abbrev sync_file_from_path : Text
sync_file_from_path = codes "/tmp/sync-file"

-- What the controller reads of a parsed sink.
abbrev pub to_parsed_sink : Parsed → ParsedSink
to_parsed_sink p = record { uri = p.uri; files_from = is_some p.files_from }

module _ (urls : Urls) where
  open urls use {Url, parse, print, scheme, username, with_user, join_path}

  unfoldable pub with_credentials : External → Ref → Url → Url
  with_credentials e ref u =
      if length (credential_envs e ref) == 2
      then with_user (dollar (external_key ref "ACCESS_KEY"))
          (dollar (external_key ref "SECRET_KEY")) u
      else u

  -- With the flag the address is one of HDFS.
  unfoldable pub external_parsed : External → Ref → Url → (hdfs : Bool) → Option Parsed
  external_parsed e ref u false = some (record {
    uri = print u;
    envs = credential_envs e ref;
    prepare_command = [];
    files_from = e.files_from;
  })
  external_parsed e ref u true =
      if is_given e.krb5_keytab && is_given e.krb5_keytab_base64
      then none
      else some (record {
        uri = print u;
        envs = credential_envs e ref ++ kerberos_envs e ref;
        prepare_command = kerberos_command e ref;
        files_from = e.files_from;
      })

  unfoldable pub with_url : External → Ref → Option Url → Option Parsed
  unfolding external_parsed with_credentials
  with_url e ref none = none
  with_url e ref (some u) =
      external_parsed e ref (with_credentials e ref u)
        (text_eq (scheme (with_credentials e ref u)) (codes "hdfs"))

  unfoldable pub parse_external_sync_sink : External → Ref → Option Parsed
  unfolding with_url
  parse_external_sync_sink e ref = with_url e ref (parse e.uri)

  unfoldable pub juicefs_parsed : JuiceFs → Ref → Option Text → Option Parsed
  juicefs_parsed j ref none = none
  juicefs_parsed j ref (some uri) = some (record {
    uri = uri;
    envs =
        given_env j.token (juicefs_key ref "TOKEN")
        ++ given_env j.access_key (juicefs_key ref "ACCESS_KEY")
        ++ given_env j.secret_key (juicefs_key ref "SECRET_KEY");
    prepare_command = auth_command j ref;
    files_from = j.files_from;
  })

  unfoldable pub parse_juicefs_sync_sink : JuiceFs → Ref → Option Parsed
  unfolding juicefs_parsed
  parse_juicefs_sync_sink j ref =
      juicefs_parsed j ref (join_path (codes "jfs://") (j.volume_name ∷ j.path ∷ []))

  abbrev volume_of : Ref → String
  volume_of ref = str_append "JUICEFS_CE_" (ref_name ref)

  unfoldable pub with_password : JuiceFsCe → Ref → Url → Url
  with_password j ref u =
      if is_given j.meta_password
      then with_user (username u) (dollar (ce_key ref "META_PASSWORD")) u
      else u

  unfoldable pub ce_parsed : JuiceFsCe → Ref → Url → Option Text → Option Parsed
  unfolding with_password
  ce_parsed j ref u none = none
  ce_parsed j ref u (some uri) = some (record {
    uri = uri;
    envs = given_env j.meta_password (ce_key ref "META_PASSWORD");
    prepare_command =
        codes "export " ++ codes (volume_of ref) ++ codes "=" ++ print (with_password j ref u);
    files_from = j.files_from;
  })

  unfoldable pub ce_with_url : JuiceFsCe → Ref → Option Url → Option Parsed
  unfolding ce_parsed
  ce_with_url j ref none = none
  ce_with_url j ref (some u) =
      ce_parsed j ref u (join_path (codes "jfs://") (codes (volume_of ref) ∷ j.path ∷ []))

  unfoldable pub parse_juicefs_ce_sync_sink : JuiceFsCe → Ref → Option Parsed
  unfolding ce_with_url
  parse_juicefs_ce_sync_sink j ref = ce_with_url j ref (parse j.meta_url)

  -- The last kind of endpoint that is there decides, its error included.
  unfoldable pub parse_endpoint : Sink → Ref → Option Parsed
  unfolding parse_external_sync_sink parse_juicefs_sync_sink parse_juicefs_ce_sync_sink
  parse_endpoint s ref = elim s.juicefs_ce [
    | some j ↦ parse_juicefs_ce_sync_sink j ref
    | none ↦ elim s.juicefs [
      | some j ↦ parse_juicefs_sync_sink j ref
      | none ↦ elim s.external [ some e ↦ parse_external_sync_sink e ref | none ↦ none ]
    ]
  ]

  abbrev write_files : Option (List Text) → Text
  write_files none = []
  write_files (some files) =
      10 ∷ codes "mkdir "
      ++ sync_file_from_path
      ++ 10 ∷ codes "echo '"
      ++ join 10 files
      ++ codes "' > "
      ++ sync_file_from_path
      ++ codes "/files"

  abbrev copy_files : Text → Text
  copy_files path =
      10 ∷ codes "mkdir -p "
      ++ sync_file_from_path
      ++ codes " && juicefs sync "
      ++ path
      ++ codes " "
      ++ sync_file_from_path
      ++ codes "/files"

  abbrev add_command : Parsed → Text → Parsed
  add_command p c = record p { prepare_command = p.prepare_command ++ c }

  unfoldable pub with_path : Parsed → Option Text → Option Parsed
  with_path p none = none
  with_path p (some path) = some (add_command p (copy_files path))

  unfoldable pub with_files : Parsed → FilesFrom → Option Parsed
  unfolding with_path
  with_files p f =
      let q = add_command p (write_files f.files) in
      if text_eq f.file_path []
      then some q
      else if ends_with b'/' f.file_path
      then none
      else with_path q (join_path p.uri (f.file_path ∷ []))

  unfoldable pub finish_sink : Ref → Parsed → Option FilesFrom → Option Parsed
  unfolding with_files
  finish_sink ref p none = some p
  finish_sink ref p (some f) = if is_to ref then none else with_files p f

  unfoldable pub parse_sync_sink : Sink → Ref → Option Parsed
  unfolding finish_sink parse_endpoint
  parse_sync_sink s ref = parse_endpoint s ref >>= λ p. finish_sink ref p p.files_from
