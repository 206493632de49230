-- ===== src/Sync/Sinks/Files.antt =====
-- Lists of files at the endpoints of a sync: the end of ParseSyncSink in pkg/utils/sync.go.
use juicefs_operator.Base.{
  ◌≡◌, refl, false, Option, none, some, [], ◌∷◌, arith, Bool-cases, Option-cases, inl, inr, sym,
  subst,
}
use juicefs_operator.Base.Text.{text_eq, text_eq_iff, ends_with}
use juicefs_operator.Sync.Sinks.{FilesFrom, Sink, Ref, from, to, Parsed, Urls, is_to}
use juicefs_operator.Sync.Sinks.Parse.{
  with_files, with_path, finish_sink, parse_endpoint, parse_sync_sink,
}

-- Only a source has a list of files, and the path of a list is no directory.
abbrev pub IsAllowed : Ref → Option FilesFrom → Type 0
IsAllowed ref none = Unit
IsAllowed ref (some f) = (is_to ref ≡ false) × (ends_with b'/' f.file_path ≡ false)

IsAllowed-subst : (ref : Ref) (a b : Option FilesFrom) → a ≡ b → IsAllowed ref a → IsAllowed ref b
IsAllowed-subst ref a b e h = subst (IsAllowed ref) e h

module _ (urls : Urls) where
  with_files-path :
      (p q : Parsed) (f : FilesFrom)
      → with_files urls p f ≡ some q
      → (q.files_from ≡ p.files_from) × (ends_with b'/' f.file_path ≡ false)
  unfolding with_files with_path ends_with
  with_files-path p q f h = elim (Bool-cases (text_eq f.file_path [])) [
    | inl e ↦ (
      ground arith,
      subst (λ t. ends_with b'/' t ≡ false) (sym ((text_eq_iff f.file_path []).0 e)) refl,
    )
    | inr e ↦ elim (Option-cases (urls.join_path p.uri (f.file_path ∷ []))) [
      | inl n ↦ absurd (ground arith)
      | inr (t, n) ↦ (ground arith, ground arith)
    ]
  ]

  finish_sink-IsAllowed :
      (ref : Ref) (p q : Parsed) (o : Option FilesFrom)
      → o ≡ p.files_from
      → finish_sink urls ref p o ≡ some q
      → IsAllowed ref q.files_from
  unfolding finish_sink
  finish_sink-IsAllowed ref p q none e h = IsAllowed-subst ref none q.files_from (ground arith) tt
  finish_sink-IsAllowed from p q (some f) e h =
      let k = with_files-path p q f h in
      IsAllowed-subst from (some f) q.files_from (ground (arith, k)) (refl, k.1)
  finish_sink-IsAllowed to p q (some f) e h = cc

  -- An endpoint is accepted with a list of files only as the source, and only if the path of the list
  -- does not end in a slash.
  pub parse_sync_sink-IsAllowed :
      (s : Sink) (ref : Ref) (p : Parsed)
      → parse_sync_sink urls s ref ≡ some p
      → IsAllowed ref p.files_from
  unfolding parse_sync_sink
  parse_sync_sink-IsAllowed s ref p h = elim (Option-cases (parse_endpoint urls s ref)) [
    | inl e ↦ absurd (ground arith)
    | inr (q, e) ↦ finish_sink-IsAllowed ref q p q.files_from refl (ground arith)
  ]
