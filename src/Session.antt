-- ===== src/Session.antt =====
-- internal/controller/repo_busy.go: who holds a claim. A session is an active backup or restore
-- that mounts it.
pub mod Laws
use backrest_operator.Prelude.{
  Bytes, bytes, Bool, true, false, Option, none, some, List, [], ◌∷◌, ◌++◌, ◌&&◌, ◌||◌, not,
  is_empty, ◌==◌, any, filter, map, if◌then◌else◌, or_text,
}
use backrest_operator.Api.{Phase, RestoreMode, Key, PvcBackup, PvcRestore}
use backrest_operator.Effects.{on_result, Env, Result, ok, err, Error, Event, M, pure, ask, ◌>>=◌}
use backrest_operator.Backup.Spec.{pvc_list}

unfoldable pub backup_phase_active : Phase → Bool
backup_phase_active Phase.pending = true
backup_phase_active Phase.flushing = true
backup_phase_active Phase.quiescing = true
backup_phase_active Phase.snapshotting = true
backup_phase_active Phase.uploading = true
backup_phase_active Phase.unquiescing = true
backup_phase_active _ = false

unfoldable pub restore_phase_active : Phase → Bool
restore_phase_active Phase.pending = true
restore_phase_active Phase.quiescing = true
restore_phase_active Phase.restoring = true
restore_phase_active _ = false

unfoldable pub pvc_key : Bytes → Bytes → Bytes
pvc_key namespace name = namespace ++ b'/' ∷ name

-- `_, ok := set[k]`, for the set of the non-empty texts of the list
abbrev pub contains : List Bytes → Bytes → Bool
contains [] k = false
contains (x ∷ xs) k = (not (is_empty x) && (x == k)) || contains xs k

unfoldable pub pvc_keys_overlap : List Bytes → List Bytes → Bool
pvc_keys_overlap [] b = false
pvc_keys_overlap (x ∷ xs) b = any (contains (x ∷ xs)) b

unfoldable pub backup_pvc_keys : PvcBackup → List Bytes
backup_pvc_keys b = map (pvc_key b.metadata.namespace) (filter (λ p. not (is_empty p)) (pvc_list b))

-- the claim that a restore creates
abbrev pub new_claim : PvcRestore → Bytes
new_claim r = or_text r.spec.target.new_name (r.metadata.name ++ bytes "-pvc")

unfoldable pub restore_pvc_keys : PvcRestore → List Bytes
restore_pvc_keys r = elim r.spec.mode [
  | RestoreMode.restic_to_existing ↦
      if is_empty r.spec.target.existing_pvc_name
      then []
      else pvc_key r.metadata.namespace r.spec.target.existing_pvc_name ∷ []
  | RestoreMode.restic_to_new ↦ pvc_key r.metadata.namespace (new_claim r) ∷ []
  | RestoreMode.from_volume_snapshot ↦ pvc_key r.metadata.namespace (new_claim r) ∷ []
  | _ ↦ []
]

pub data HolderKind : Type 0 where
  backup restore : HolderKind

abbrev pub is_backup : HolderKind → Bool
is_backup HolderKind.backup = true
is_backup HolderKind.restore = false

pub record SessionHolder : Type 0 where
  pub kind : HolderKind
  pub key : Key
  pub phase : Phase

module _ (want : List Bytes) (self_kind : HolderKind) (self : Key) where
  -- the first loop
  unfoldable pub holds_backup : PvcBackup → Bool
  holds_backup b =
      not (
        is_backup self_kind
        && ((b.metadata.namespace == self.namespace) && (b.metadata.name == self.name)))
      && (backup_phase_active b.status.phase && pvc_keys_overlap want (backup_pvc_keys b))

  -- the second loop
  unfoldable pub holds_restore : PvcRestore → Bool
  holds_restore r =
      not (
        not (is_backup self_kind)
        && ((r.metadata.namespace == self.namespace) && (r.metadata.name == self.name)))
      && (restore_phase_active r.status.phase && pvc_keys_overlap want (restore_pvc_keys r))

  abbrev pub backup_holder : PvcBackup → SessionHolder
  backup_holder b = record {
    kind = HolderKind.backup;
    key = record { namespace = b.metadata.namespace; name = b.metadata.name };
    phase = b.status.phase;
  }

  abbrev pub restore_holder : PvcRestore → SessionHolder
  restore_holder r = record {
    kind = HolderKind.restore;
    key = record { namespace = r.metadata.namespace; name = r.metadata.name };
    phase = r.status.phase;
  }

  unfoldable pub session_holders : List PvcBackup → List PvcRestore → List SessionHolder
  session_holders bs rs =
      map backup_holder (filter holds_backup bs) ++ map restore_holder (filter holds_restore rs)

  unfoldable pub list_pvc_session_holders : Env → M (Result (List SessionHolder))
  list_pvc_session_holders env = if is_empty want then pure (ok []) else (do
    backups ← ask env.backups Event.list_backups
    on_result backups (λ e. pure (err e))
        (λ bs. do
          restores ← ask env.restores Event.list_restores
          on_result restores (λ e. pure (err e)) (λ rs. pure (ok (session_holders bs rs)))))

  abbrev pub busy_holder : Result (List SessionHolder) → Result (Option (List SessionHolder))
  busy_holder (err e) = err e
  busy_holder (ok []) = ok none
  busy_holder (ok (h ∷ hs)) = ok (some (h ∷ hs))

  -- The holders stand for the text that only the log gets.
  unfoldable pub pvc_session_busy : Env → M (Result (Option (List SessionHolder)))
  unfolding list_pvc_session_holders
  pvc_session_busy env = do hs ← list_pvc_session_holders env; pure (busy_holder hs)

unfoldable pub holders_of_kind : Bool → List SessionHolder → List SessionHolder
holders_of_kind backups = filter (λ h. if backups then is_backup h.kind else not (is_backup h.kind))
