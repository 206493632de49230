-- ===== src/Builder/Worker/Script.antt =====
-- The script of a worker's command (genShellCommands of pkg/builder/cache_group_pod.go) and its parser
-- (MustParseWorkerMountCmds of pkg/utils/pod.go).
use juicefs_operator.Base.{
  true, false, some, List, [], ◌∷◌, ◌++◌, ◌≡◌, refl, subst, ap, sym, ◌∙◌, arith,
}
use juicefs_operator.Base.Text.{Text, codes, join, split, last_line, has_prefix}
use juicefs_operator.Base.Trim.{has_char}
use juicefs_operator.Base.Split.{has_char-append, split-word, last_line-split-join}
use juicefs_operator.Pods.{must_parse_worker_mount_cmds}
use juicefs_operator.Builder.Commands.{gen_shell_commands}

-- Neither a space nor a line break.
pub record IsWord (s : Text) : Type 0 where
  pub no_space : has_char b' ' s ≡ false
  pub no_break : has_char b'\n' s ≡ false

-- The third word of a command: the script of the shell.
abbrev pub script_of : List Text → Text
script_of (_ ∷ _ ∷ s ∷ _) = s
script_of _ = []

abbrev mount_line : Text → Text → Text
mount_line vol arg =
    codes "exec"
    ++ b' '
      ∷ (codes "/sbin/mount.juicefs" ++ b' ' ∷ (vol ++ b' ' ∷ (codes "/mnt/jfs" ++ b' ' ∷ arg)))

mount_words :
    (vol arg : Text)
    → has_char b' ' vol ≡ false
    → split b' ' (mount_line vol arg)
      ≡ codes "exec" ∷ codes "/sbin/mount.juicefs" ∷ vol ∷ codes "/mnt/jfs" ∷ split b' ' arg
mount_words vol arg h =
    split-word b' ' (codes "exec") _ refl
    ∙ ap (λ r. codes "exec" ∷ r)
        (split-word b' ' (codes "/sbin/mount.juicefs") _ refl
          ∙ ap (λ r. codes "/sbin/mount.juicefs" ∷ r)
              (split-word b' ' vol _ h
                ∙ ap (λ r. vol ∷ r) (split-word b' ' (codes "/mnt/jfs") arg refl)))

mount_line-free :
    (vol arg : Text)
    → has_char b'\n' vol ≡ false
    → has_char b'\n' arg ≡ false
    → has_char b'\n' (mount_line vol arg) ≡ false
mount_line-free vol arg h k =
    has_char-append b'\n' vol (b' ' ∷ (codes "/mnt/jfs" ++ b' ' ∷ arg)) ∙ ground arith

-- The parser on a text whose last line is known.
parse_last :
    (s l : Text) (w1 w2 w3 w4 w5 w6 : Text) (ws : List Text)
    → last_line (split b'\n' s) ≡ l
    → has_prefix (codes "exec") l ≡ true
    → split b' ' l ≡ w1 ∷ w2 ∷ w3 ∷ w4 ∷ w5 ∷ w6 ∷ ws
    → must_parse_worker_mount_cmds s ≡ some (w3, split b',' w6)
unfolding must_parse_worker_mount_cmds has_prefix split
parse_last [] l w1 w2 w3 w4 w5 w6 ws e p q =
    let r : has_prefix (codes "exec") (last_line (split b'\n' [])) ≡ true =
      subst (λ t. has_prefix (codes "exec") t ≡ true) (sym e) p in
    cc r
parse_last (c ∷ s) l w1 w2 w3 w4 w5 w6 ws e p q = rw e (rw p (rw q refl))

-- The script of a worker's command gives the volume's name and the sixth word back.
pub must_parse-gen_shell_commands :
    (vol : Text) (auth devices : List Text) (arg dash opts : Text) (more : List Text)
    → IsWord vol
    → has_char b'\n' arg ≡ false
    → split b' ' arg ≡ dash ∷ opts ∷ more
    → must_parse_worker_mount_cmds (script_of (gen_shell_commands vol auth devices arg))
      ≡ some (vol, split b',' opts)
unfolding gen_shell_commands join has_prefix
must_parse-gen_shell_commands vol auth devices arg dash opts more v n e =
    parse_last _ (mount_line vol arg) _ _ _ _ _ _ more
      (last_line-split-join b'\n' (join b' ' auth ∷ devices) (mount_line vol arg)
        (mount_line-free vol arg v.no_break n))
      refl
      (mount_words vol arg v.no_space
        ∙ ap (λ r. codes "exec" ∷ codes "/sbin/mount.juicefs" ∷ vol ∷ codes "/mnt/jfs" ∷ r) e)
