-- ===== src/Shell.antt =====
-- internal/controller/restic_job_script.go, and the quoting functions of
-- internal/controller/pvcbackup_controller.go.
pub mod Lexer
pub mod Laws
pub mod Scripts
use backrest_operator.Prelude.{
  Bytes, bytes, is_empty, replace_all, Option, none, some, List, [], ◌∷◌, ◌++◌, map, if◌then◌else◌,
}
use backrest_operator.Prelude.Int.{ℤ}
use backrest_operator.Prelude.Decimal.{decimal_int}

-- shellQuoteOne: each `'` becomes `'"'"'`
unfoldable pub shell_quote_one : Bytes → Bytes
shell_quote_one s = b'\'' ∷ replace_all b'\'' (bytes "'\"'\"'") s ++ b'\'' ∷ []

unfoldable pub shell_quote : List Bytes → List Bytes
shell_quote = map shell_quote_one

-- strings.Join(parts, " ")
unfoldable pub join_words : List Bytes → Bytes
join_words [] = []
join_words (p ∷ []) = p
join_words (p ∷ q ∷ ps) = p ++ b' ' ∷ join_words (q ∷ ps)

-- the loops that write ` --exclude <q>` and ` --include <q>`
unfoldable pub flag_each : Bytes → List Bytes → Bytes
flag_each flag [] = []
flag_each flag (x ∷ xs) = flag ++ shell_quote_one x ++ flag_each flag xs

unfoldable pub plan_tag : Bytes → Bytes
plan_tag plan_id = bytes "plan:" ++ plan_id

unfoldable pub instance_tag : Bytes → Bytes
instance_tag inst = bytes "created-by:" ++ inst

unfoldable pub restic_forget_prune_clause : ℤ → Bytes
restic_forget_prune_clause keep_last =
    bytes "restic forget --json --retry-lock 5m --group-by '' --keep-last "
    ++ decimal_int keep_last
    ++ bytes " --prune || true"

-- `if keepLast != nil { … }`
unfoldable pub retention_suffix : Option ℤ → Bytes
retention_suffix none = []
retention_suffix (some k) = bytes "; " ++ restic_forget_prune_clause k

unfoldable pub restic_backup_job_script : List Bytes → List Bytes → Bytes → Bytes → Option ℤ → Bytes
restic_backup_job_script paths excludes plan_id inst keep_last =
    bytes "restic unlock || true; restic snapshots >/dev/null 2>&1 || restic init; "
    ++ (bytes "restic backup --json --retry-lock 5m "
        ++ (join_words (shell_quote paths)
            ++ (flag_each (bytes " --exclude ") excludes
                ++ (bytes " --tag "
                    ++ (shell_quote_one (plan_tag plan_id)
                        ++ (bytes " --tag "
                            ++ (shell_quote_one (instance_tag inst)
                                ++ retention_suffix keep_last)))))))

unfoldable pub prune_job_script : ℤ → Bytes
prune_job_script keep_last = bytes "restic unlock || true; " ++ restic_forget_prune_clause keep_last

unfoldable pub restic_check_job_script : Bytes
restic_check_job_script =
    bytes
      "for i in 1 2 3 4 5 6; do restic unlock || true; restic check --retry-lock 5m && exit 0; sleep 60; done; exit 1"

unfoldable pub restic_restore_job_script : Bytes → List Bytes → Bytes
restic_restore_job_script snapshot_id path_filters =
    bytes "restic unlock || true; restic restore --json --retry-lock 5m "
    ++ (shell_quote_one snapshot_id
        ++ (bytes " --target /data" ++ flag_each (bytes " --include ") path_filters))
