-- ===== src/Sync/Sinks/Laws.antt =====
-- The environment of a sync's pods against its secret (pkg/utils/sync.go, pkg/builder/sync_secret.go),
-- and the endpoints that are refused.
use juicefs_operator.Base.{
  ◌&&◌, String, ◌≡◌, Bool, true, false, Option, none, some, List, [], ◌∷◌, Option-cases, All,
  All-append, arith, Bool-cases, inl, inr, sym, subst, if_ind,
}
use juicefs_operator.Base.Text.{Text, text_eq}
use juicefs_operator.Sync.Sinks.{
  External, JuiceFs, JuiceFsCe, Sink, Ref, from, to, Parsed, Urls, is_given, FilesFrom,
}
use juicefs_operator.Sync.Sinks.Parse.{
  with_files, with_path, finish_sink, parse_endpoint, parse_sync_sink, parse_external_sync_sink,
  parse_juicefs_sync_sink, parse_juicefs_ce_sync_sink, external_parsed, with_url, juicefs_parsed,
  ce_parsed, ce_with_url,
}
use juicefs_operator.Sync.Sinks.Secret.{
  gen_juicefs_secret_data, gen_external_secret_data, gen_juicefs_ce_secret_data, new_sync_secret,
}
use juicefs_operator.Sync.Sinks.Held.{
  Held, envs_of, Keeps, side, external-Held, juicefs-Held, ce-Held, new_sync_secret-Complete,
}

module _ (urls : Urls) where
  open urls use {Url}

  with_files-envs : (p q : Parsed) (f : FilesFrom) → with_files urls p f ≡ some q → q.envs ≡ p.envs
  unfolding with_files with_path
  with_files-envs p q f h = elim (Bool-cases (text_eq f.file_path [])) [
    | inl e ↦ ground arith
    | inr e ↦ elim (Option-cases (urls.join_path p.uri (f.file_path ∷ []))) [
      | inl n ↦ absurd (ground arith)
      | inr (t, n) ↦ ground arith
    ]
  ]

  finish_sink-envs :
      (ref : Ref) (p q : Parsed) (o : Option FilesFrom)
      → finish_sink urls ref p o ≡ some q
      → q.envs ≡ p.envs
  unfolding finish_sink
  finish_sink-envs ref p q none h = ground arith
  finish_sink-envs from p q (some f) h = with_files-envs p q f h
  finish_sink-envs to p q (some f) h = cc

  abbrev HeldBy : List (String × String) → Option Parsed → Type 0
  HeldBy n o = All (Held n) (envs_of o)

  external_parsed-Held :
      (e : External) (ref : Ref) (u : Url) (hdfs : Bool) (n : List (String × String))
      → Keeps (gen_external_secret_data (some e) ref) n
      → HeldBy n (external_parsed urls e ref u hdfs)
  unfolding external_parsed
  external_parsed-Held e ref u false n keep = (external-Held e ref n keep).0
  external_parsed-Held e ref u true n keep =
      if_ind (HeldBy n) (is_given e.krb5_keytab && is_given e.krb5_keytab_base64) (λ _. tt)
        (λ _. All-append (Held n) _ _ (external-Held e ref n keep).0 (external-Held e ref n keep).1)

  with_url-Held :
      (e : External) (ref : Ref) (o : Option Url) (n : List (String × String))
      → Keeps (gen_external_secret_data (some e) ref) n
      → HeldBy n (with_url urls e ref o)
  unfolding with_url
  with_url-Held e ref none n keep = tt
  with_url-Held e ref (some u) n keep = external_parsed-Held e ref _ _ n keep

  juicefs_parsed-Held :
      (j : JuiceFs) (ref : Ref) (o : Option Text) (n : List (String × String))
      → Keeps (gen_juicefs_secret_data (some j) ref) n
      → HeldBy n (juicefs_parsed urls j ref o)
  unfolding juicefs_parsed
  juicefs_parsed-Held j ref none n keep = tt
  juicefs_parsed-Held j ref (some uri) n keep = juicefs-Held j ref n keep

  ce_parsed-Held :
      (j : JuiceFsCe) (ref : Ref) (u : Url) (o : Option Text) (n : List (String × String))
      → Keeps (gen_juicefs_ce_secret_data (some j) ref) n
      → HeldBy n (ce_parsed urls j ref u o)
  unfolding ce_parsed
  ce_parsed-Held j ref u none n keep = tt
  ce_parsed-Held j ref u (some uri) n keep = ce-Held j ref n keep

  ce_with_url-Held :
      (j : JuiceFsCe) (ref : Ref) (o : Option Url) (n : List (String × String))
      → Keeps (gen_juicefs_ce_secret_data (some j) ref) n
      → HeldBy n (ce_with_url urls j ref o)
  unfolding ce_with_url
  ce_with_url-Held j ref none n keep = tt
  ce_with_url-Held j ref (some u) n keep = ce_parsed-Held j ref u _ n keep

  by_kind-Held :
      (e : Option External) (j : Option JuiceFs) (c : Option JuiceFsCe) (ref : Ref)
      (n : List (String × String))
      → Keeps (gen_external_secret_data e ref) n
      → Keeps (gen_juicefs_secret_data j ref) n
      → Keeps (gen_juicefs_ce_secret_data c ref) n
      → HeldBy n (parse_endpoint urls (record { external = e; juicefs = j; juicefs_ce = c }) ref)
  unfolding parse_endpoint parse_external_sync_sink parse_juicefs_sync_sink
      parse_juicefs_ce_sync_sink
  by_kind-Held e j (some c) ref n h k l = ce_with_url-Held c ref _ n l
  by_kind-Held e (some j) none ref n h k l = juicefs_parsed-Held j ref _ n k
  by_kind-Held (some e) none none ref n h k l = with_url-Held e ref _ n h
  by_kind-Held none none none ref n h k l = tt

  -- Every environment variable that the pods of a sync take from the sync's own secret names a key
  -- that the secret has, for the source and for the target, whichever kind of endpoint each is.
  pub parse_sync_sink-Held :
      (ref : Ref) (distributed : Bool) (keys : String × String) (source target : Sink) (p : Parsed)
      → parse_sync_sink urls (side ref source target) ref ≡ some p
      → All (Held (new_sync_secret distributed keys source target)) p.envs
  unfolding parse_sync_sink
  parse_sync_sink-Held ref distributed keys source target p h =
      let n = new_sync_secret distributed keys source target in
      let s = side ref source target in
      let c = new_sync_secret-Complete ref distributed keys source target in
      let held =
        by_kind-Held s.external s.juicefs s.juicefs_ce ref n c.external_kept c.juicefs_kept
          c.ce_kept in
      elim (Option-cases (parse_endpoint urls s ref)) [
        | inl e ↦ absurd (ground arith)
        | inr (q, e) ↦
            subst (All (Held n)) (sym (finish_sink-envs ref q p q.files_from (ground arith)))
              (subst (HeldBy n) e held)
      ]
