-- ===== src/Shell/Scripts.antt =====
-- The commands that a shell finds in the scripts, for all names, paths and tags.
use backrest_operator.Prelude.{◌≡◌, refl, Bytes, bytes, Option, none, some, List, [], ◌∷◌, ◌++◌}
use backrest_operator.Prelude.Int.{ℤ}
use backrest_operator.Prelude.Decimal.{decimal_int}
use backrest_operator.Shell.{
  shell_quote_one, plan_tag, instance_tag, restic_forget_prune_clause, retention_suffix,
  restic_backup_job_script, prune_job_script, restic_restore_job_script,
}
use backrest_operator.Shell.Lexer.{Token, word, op, Mode, gap, bare, single, double, tokens, scan}
use backrest_operator.Shell.Laws.{
  words, flagged, Parses, Parses-then, Parses-and, Parses-tokens, Parses-nil, Parses-quote,
  Parses-flag_each, Parses-join_words, Parses-close, Reads-space,
}
use backrest_operator.Shell.Laws.Reading.{
  Reads, IsOpen, Reads-append, Reads-decimal_int, Reads-quote,
}

-- restic unlock || true;
abbrev pub unlock_tokens : List Token
unlock_tokens =
    word (bytes "restic")
    ∷ word (bytes "unlock")
    ∷ op b'|'
    ∷ op b'|'
    ∷ word (bytes "true")
    ∷ op b';'
    ∷ []

-- restic snapshots >/dev/null 2>&1 || restic init;
abbrev pub init_tokens : List Token
init_tokens =
    word (bytes "restic")
    ∷ word (bytes "snapshots")
    ∷ op b'>'
    ∷ word (bytes "/dev/null")
    ∷ word (bytes "2")
    ∷ op b'>'
    ∷ op b'&'
    ∷ word (bytes "1")
    ∷ op b'|'
    ∷ op b'|'
    ∷ word (bytes "restic")
    ∷ word (bytes "init")
    ∷ op b';'
    ∷ []

abbrev pub backup_command : List Bytes
backup_command =
    bytes "restic" ∷ bytes "backup" ∷ bytes "--json" ∷ bytes "--retry-lock" ∷ bytes "5m" ∷ []

abbrev pub forget_command : ℤ → List Bytes
forget_command k =
    bytes "restic"
    ∷ bytes "forget"
    ∷ bytes "--json"
    ∷ bytes "--retry-lock"
    ∷ bytes "5m"
    ∷ bytes "--group-by"
    ∷ []
    ∷ bytes "--keep-last"
    ∷ decimal_int k
    ∷ bytes "--prune"
    ∷ []

-- || true
abbrev pub or_true : List Token
or_true = op b'|' ∷ op b'|' ∷ word (bytes "true") ∷ []

-- ; restic forget … || true, when a retention is set
abbrev pub retention_tokens : Option ℤ → List Token
retention_tokens none = []
retention_tokens (some k) = op b';' ∷ words (forget_command k) ++ or_true

Reads-forget :
    Reads gap
      (bytes "restic forget --json --retry-lock 5m --group-by '' --keep-last ")
      (words (
        bytes "restic"
        ∷ bytes "forget"
        ∷ bytes "--json"
        ∷ bytes "--retry-lock"
        ∷ bytes "5m"
        ∷ bytes "--group-by"
        ∷ []
        ∷ bytes "--keep-last"
        ∷ []))
      gap
unfolding scan bytes
Reads-forget = record { done = _; scans = refl; reads = refl }

Reads-prune :
    (w : Bytes)
    → Reads
        (bare w)
        (bytes " --prune || true")
        (word (bytes "--prune") ∷ or_true)
        (bare (bytes "true"))
unfolding scan bytes
Reads-prune w = record { done = _; scans = refl; reads = refl }

Parses-forget :
    (k : ℤ) → Parses gap (restic_forget_prune_clause k) (words (forget_command k) ++ or_true)
unfolding restic_forget_prune_clause
Parses-forget k =
    Parses-close _ (Reads-append (Reads-append Reads-forget (Reads-decimal_int k)) (Reads-prune _))

Reads-backup :
    Reads gap
      (bytes "restic unlock || true; restic snapshots >/dev/null 2>&1 || restic init; ")
      (unlock_tokens ++ init_tokens)
      gap
unfolding scan bytes
Reads-backup = record { done = _; scans = refl; reads = refl }

Reads-command : Reads gap (bytes "restic backup --json --retry-lock 5m ") (words backup_command) gap
unfolding scan bytes
Reads-command = record { done = _; scans = refl; reads = refl }

Reads-tag : Reads gap (bytes "--tag ") (word (bytes "--tag") ∷ []) gap
unfolding scan bytes
Reads-tag = record { done = _; scans = refl; reads = refl }

Reads-exclude : Reads gap (bytes "--exclude ") (word (bytes "--exclude") ∷ []) gap
unfolding scan bytes
Reads-exclude = record { done = _; scans = refl; reads = refl }

Reads-semicolon : (m : Mode) → IsOpen m → Reads m (bytes "; ") (op b';' ∷ []) gap
unfolding scan bytes
Reads-semicolon gap o = record { done = _; scans = refl; reads = refl }
Reads-semicolon (bare w) o = record { done = _; scans = refl; reads = refl }
Reads-semicolon (single w) o = absurd o
Reads-semicolon (double w) o = absurd o

Parses-retention :
    (k : Option ℤ) (m : Mode) → IsOpen m → Parses m (retention_suffix k) (retention_tokens k)
unfolding retention_suffix
Parses-retention none m o = Parses-nil m o
Parses-retention (some k) m o = Parses-then (Reads-semicolon m o) (Parses-forget k)

module _ (paths excludes : List Bytes) (plan_id inst : Bytes) (keep_last : Option ℤ) where
  Parses-tags :
      (m : Mode)
      → IsOpen m
      → Parses m
          (bytes " --tag "
            ++ (shell_quote_one (plan_tag plan_id)
                ++ (bytes " --tag "
                    ++ (shell_quote_one (instance_tag inst) ++ retention_suffix keep_last))))
          (flagged (bytes "--tag") (plan_tag plan_id ∷ instance_tag inst ∷ [])
            ++ retention_tokens keep_last)
  unfolding bytes
  Parses-tags m o = Parses-then (Reads-space m o) (
      Parses-then Reads-tag (
        Parses-and (Parses-quote (plan_tag plan_id)) λ m' o'. Parses-then (Reads-space m' o') (
          Parses-then Reads-tag
            (Parses-and (Parses-quote (instance_tag inst)) (Parses-retention keep_last)))))

  -- Whatever bytes the paths, the exclude patterns, the plan and the instance hold, a shell reads
  -- from the backup script exactly these commands: unlock, the check for a repository, and one
  -- `restic backup` whose arguments are the paths, an `--exclude` for each pattern and the two
  -- tags, each one word that is byte for byte the given text; then, if a retention is set, one
  -- `restic forget` with that number. Nothing in the texts is expanded or ends a command.
  pub tokens-restic_backup_job_script :
      tokens (restic_backup_job_script paths excludes plan_id inst keep_last)
      ≡ some (
          unlock_tokens
          ++ init_tokens
          ++ (words backup_command
              ++ (words paths
                  ++ (flagged (bytes "--exclude") excludes
                      ++ (flagged (bytes "--tag") (plan_tag plan_id ∷ instance_tag inst ∷ [])
                          ++ retention_tokens keep_last)))))
  unfolding restic_backup_job_script bytes
  tokens-restic_backup_job_script = Parses-tokens (
      Parses-then Reads-backup (
        Parses-then Reads-command (
          Parses-and (Parses-join_words paths) λ m o.
            Parses-and (Parses-flag_each (bytes "--exclude ") Reads-exclude excludes m o)
              Parses-tags)))

Reads-restore :
    Reads gap
      (bytes "restic unlock || true; restic restore --json --retry-lock 5m ")
      (unlock_tokens
        ++ words (
            bytes "restic"
            ∷ bytes "restore"
            ∷ bytes "--json"
            ∷ bytes "--retry-lock"
            ∷ bytes "5m"
            ∷ []))
      gap
unfolding scan bytes
Reads-restore = record { done = _; scans = refl; reads = refl }

Reads-target :
    (w : Bytes)
    → Reads
        (bare w)
        (bytes " --target /data")
        (words (bytes "--target" ∷ bytes "/data" ∷ []))
        (bare (bytes "/data"))
unfolding scan bytes
Reads-target w = record { done = _; scans = refl; reads = refl }

Reads-include : Reads gap (bytes "--include ") (word (bytes "--include") ∷ []) gap
unfolding scan bytes
Reads-include = record { done = _; scans = refl; reads = refl }

Reads-unlock : Reads gap (bytes "restic unlock || true; ") unlock_tokens gap
unfolding scan bytes
Reads-unlock = record { done = _; scans = refl; reads = refl }

-- Whatever bytes the snapshot id and the path filters hold, a shell reads from the restore script
-- an unlock and one `restic restore` of that snapshot into /data, with an `--include` for each
-- filter, each text one word that is byte for byte the given one.
pub tokens-restic_restore_job_script :
    (snapshot_id : Bytes) (path_filters : List Bytes)
    → tokens (restic_restore_job_script snapshot_id path_filters)
      ≡ some (
          unlock_tokens
          ++ words (
              bytes "restic"
              ∷ bytes "restore"
              ∷ bytes "--json"
              ∷ bytes "--retry-lock"
              ∷ bytes "5m"
              ∷ snapshot_id
              ∷ bytes "--target"
              ∷ bytes "/data"
              ∷ [])
          ++ flagged (bytes "--include") path_filters)
unfolding restic_restore_job_script bytes
tokens-restic_restore_job_script snapshot_id path_filters = Parses-tokens (
    Parses-then Reads-restore (
      Parses-then (Reads-quote snapshot_id) (
        Parses-then (Reads-target snapshot_id)
          (Parses-flag_each (bytes "--include ") Reads-include path_filters _ tt))))

-- The prune script is an unlock and the same `restic forget` as at the end of a backup.
tokens-prune_job_script :
    (k : ℤ)
    → tokens (prune_job_script k) ≡ some (unlock_tokens ++ (words (forget_command k) ++ or_true))
unfolding prune_job_script
tokens-prune_job_script k = Parses-tokens (Parses-then Reads-unlock (Parses-forget k))
