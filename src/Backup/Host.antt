-- ===== src/Backup/Host.antt =====
-- internal/controller/host_sync.go: the plan of a backup on the Backrest host.
pub mod Laws
use backrest_operator.Prelude.{
  ℕ, ◌+◌, Bytes, bytes, Bool, true, false, Option, none, some, List, [], ◌∷◌, ◌++◌, ◌&&◌, ◌||◌,
  is_empty, ◌==◌, map, take, leb, eq_num, or_text, replace_all, if◌then◌else◌,
}
use backrest_operator.Api.{PvcBackup, BackupRepository, ObjectReference, Key, ref_key}
use backrest_operator.Effects.{
  on_result, on_option, is_not_found, Env, Result, ok, err, Error, Reason, Event, M, pure, ask,
  ◌>>=◌, Plan,
}
use backrest_operator.Backup.Spec.{pvc_list, repository_key}

-- a cluster's namespace and name
unfoldable pub resolve_cluster_ref : ObjectReference → Bytes → Key
resolve_cluster_ref r default = record {
  namespace = or_text r.namespace default;
  name = or_text r.name (bytes "main");
}

-- backrest.HostURL
unfoldable pub host_url : Key → Bytes
host_url c =
    bytes "http://backrest-host-" ++ c.name ++ bytes "." ++ c.namespace ++ bytes ".svc:9898"

unfoldable pub instance_for_cluster : Bytes → Bytes
instance_for_cluster name = name

-- a lower case letter, a digit, `-` or `_` stays; anything else becomes `-`. Namespaces and names
-- are ASCII, so a byte is a character.
abbrev pub id_byte : ℕ → ℕ
id_byte c =
    let low = if leb b'A' c && leb c b'Z' then c + 32 else c in
    if (leb b'a' low && leb low b'z')
      || (leb b'0' low && leb low b'9')
      || eq_num low b'-'
      || eq_num low b'_'
    then low
    else b'-'

unfoldable pub sanitize_id : Bytes → Bytes
sanitize_id s = take 64 (map id_byte s)

unfoldable pub plan_id_for_pvc_backup : PvcBackup → Bytes
unfolding sanitize_id
plan_id_for_pvc_backup b = sanitize_id (b.metadata.namespace ++ b'-' ∷ b.metadata.name)

unfoldable pub sanitize_path : Bytes → Bytes
sanitize_path s = or_text (replace_all b'/' (b'-' ∷ []) s) (bytes "vol")

-- a single path that is `/` or empty counts as none
unfoldable pub own_paths : List Bytes → List Bytes
own_paths (p ∷ []) = if p == bytes "/" || is_empty p then [] else p ∷ []
own_paths ps = ps

unfoldable pub data_path : Bytes → Bytes
unfolding sanitize_path
data_path pvc = bytes "/data/" ++ sanitize_path pvc

abbrev pub or_list : List Bytes → List Bytes → List Bytes
or_list [] ys = ys
or_list (x ∷ xs) ys = x ∷ xs

unfoldable pub pvc_backup_paths : PvcBackup → List Bytes
unfolding own_paths data_path
pvc_backup_paths b = or_list (own_paths b.spec.paths) (map data_path (pvc_list b))

module _ (env : Env) where
  unfoldable pub sync_pvc_backup_plan_to_host : PvcBackup → BackupRepository → M (Option Error)
  sync_pvc_backup_plan_to_host b repo =
      let cluster = resolve_cluster_ref repo.spec.cluster_ref repo.metadata.namespace in
      let url = host_url cluster in
      if repo.spec.sync_to_host
      then (do
        e ← ask env.done (Event.ensure_instance url (instance_for_cluster cluster.name))
        on_option e (λ x. pure (some x))
            (do
              u ← ask env.done (
                  Event.upsert_plan url (record {
                    id = plan_id_for_pvc_backup b;
                    repo = repo.metadata.name;
                    paths = pvc_backup_paths b;
                    excludes = b.spec.excludes;
                    keep_last = b.spec.keep_last;
                  }))
              on_option u (λ x. pure (some x))
                  (do _ ← ask env.done (Event.index_snapshots url repo.metadata.name); pure none)))
      else pure none

  -- after a run: a repository that cannot be read and a failed sync are only logged
  unfoldable pub sync_after_run : PvcBackup → M (Unit {0})
  unfolding sync_pvc_backup_plan_to_host
  sync_after_run b = do
    r ← ask env.repository (Event.get_repository (repository_key b))
    on_result r (λ e. pure tt) (λ repo. do _ ← sync_pvc_backup_plan_to_host b repo; pure tt)

  unfoldable pub remove_pvc_backup_plan_from_host : PvcBackup → M (Option Error)
  remove_pvc_backup_plan_from_host b = do
    r ← ask env.repository (Event.get_repository (repository_key b))
    on_result r (λ e. (if is_not_found e then pure none else pure (some e)))
        (λ repo.
          if repo.spec.sync_to_host
          then ask env.done (
              Event.delete_plan
                (host_url (resolve_cluster_ref repo.spec.cluster_ref repo.metadata.namespace))
                (plan_id_for_pvc_backup b))
          else pure none)
