-- ===== src/Examples/Sinks.antt =====
-- The theorems about the endpoints of a sync on concrete endpoints.
use juicefs_operator.Base.Text.{ends_with, Text, codes, join, text_eq, split, cut, strip_prefix}
use juicefs_operator.Sync.Sinks.{
  parse_sink_value_to_env, sync_secret, auth_words, SinkValue, External, Sink, from, Parsed, Urls,
}
use juicefs_operator.Base.{String, ◌≡◌, refl, false, none, some, List, [], ◌∷◌, ◌++◌, All}
use juicefs_operator.Sync.Sinks.Parse.{parse_sync_sink}
use juicefs_operator.Sync.Sinks.Secret.{new_sync_secret}
use juicefs_operator.Sync.Sinks.Held.{Held}
use juicefs_operator.Sync.Sinks.Laws.{parse_sync_sink-Held}

-- Addresses as a scheme with the rest.
abbrev print_url : Text × Text → Text
print_url (s, t) = s ++ b':' ∷ t

abbrev urls : Urls
urls = record {
  Url = Text × Text;
  parse = cut b':';
  print = print_url;
  scheme = λ u. u.0;
  username = λ u. [];
  with_user = λ a b u. (u.0, a ++ b':' ∷ b ++ b'@' ∷ u.1);
  join_path = λ s parts. some (s ++ join b'/' parts);
}

abbrev plain : String → SinkValue
plain s = record { value = s; value_from = none }

abbrev store : External
store = record {
  uri = codes "s3://bucket/";
  access_key = plain "key";
  secret_key = plain "secret";
  files_from = some (record { files = some (codes "a" ∷ []); file_path = codes "list" });
  krb5_keytab = plain "";
  krb5_keytab_base64 = plain "";
  krb5_principal = plain "";
}

abbrev source_end : Sink
source_end = record { external = some store; juicefs = none; juicefs_ce = none }

abbrev no_end : Sink
no_end = record { external = none; juicefs = none; juicefs_ce = none }

abbrev parsed_end : Parsed
parsed_end = record {
  uri = codes "s3:$EXTERNAL_FROM_ACCESS_KEY:$EXTERNAL_FROM_SECRET_KEY@//bucket/";
  envs =
      record { name = "EXTERNAL_FROM_ACCESS_KEY"; source = sync_secret "EXTERNAL_FROM_ACCESS_KEY" }
      ∷ record {
        name = "EXTERNAL_FROM_SECRET_KEY";
        source = sync_secret "EXTERNAL_FROM_SECRET_KEY";
      }
      ∷ [];
  prepare_command =
      10 ∷ codes "mkdir /tmp/sync-file"
      ++ 10 ∷ codes "echo 'a' > /tmp/sync-file/files"
      ++ 10 ∷ codes "mkdir -p /tmp/sync-file && juicefs sync s3:$EXTERNAL_FROM_ACCESS_KEY:"
      ++ codes "$EXTERNAL_FROM_SECRET_KEY@//bucket/list /tmp/sync-file/files";
  files_from = store.files_from;
}

parsed : parse_sync_sink urls source_end from ≡ some parsed_end
unfolding parse_sync_sink cut text_eq parse_sink_value_to_env ends_with join
parsed = refl

parse_sync_sink-Held_example :
    All (Held (new_sync_secret false ("", "") source_end no_end)) parsed_end.envs
parse_sync_sink-Held_example =
    parse_sync_sink-Held urls from false ("", "") source_end no_end parsed_end parsed

abbrev option_words : List Text
option_words = codes "--token=abc" ∷ codes "bucket=b" ∷ codes "token" ∷ []

-- A token with its value is passed on.
kept_token :
    auth_words option_words ≡ (codes "--token" ∷ codes "abc" ∷ codes "--bucket" ∷ codes "b" ∷ [])
unfolding auth_words strip_prefix text_eq split
kept_token = refl

-- A value with a second `=` is lost.
lost_value : auth_words (codes "--bucket=a=b" ∷ []) ≡ (codes "--bucket" ∷ [])
unfolding auth_words strip_prefix text_eq split
lost_value = refl
