-- ===== src/Mcp/Tools.antt =====
-- internal/mcp/tools.go: Tools.Call, the tools that talk to Kubernetes.
pub mod Arguments
pub mod Hosts
pub mod Downloads
use backrest_operator.Prelude.{
  ℕ, ◌/◌, Bytes, bytes, Bool, true, false, not, ◌++◌, Option, none, some, List, [], ◌∷◌, ◌==◌,
  is_empty, or_text, if◌then◌else◌,
}
use backrest_operator.Prelude.Dict.{lookup}
use backrest_operator.Prelude.Decimal.{decimal}
use backrest_operator.Effects.{
  Result, ok, err, Error, plain_error, Event, M, pure, ask, ◌>>=◌, ◌>>◌, on_result, on_option,
}
use backrest_operator.Backup.Schedule.{second}
use backrest_operator.Mcp.Calls.{UserIdentity, ApiCall, Json, Args}
use backrest_operator.Mcp.World.{World, Output, api}
use backrest_operator.Mcp.Auth.{stdio_username}
use Arguments.{str_arg, bool_arg, arg_at}
use Hosts.{
  request, Handler, failed, answer_object, list_snapshots, get_host_config, index_repository,
}
use Downloads.{get_snapshot_download_url, create_snapshot_download, get_snapshot_download}

-- whom the tools' client impersonates: the user, or nobody for the local one
unfoldable pub client_for : UserIdentity → Option UserIdentity
client_for user = if user.username == stdio_username then none else some user

module _ (w : World) (as_user : Option UserIdentity) (ns : Bytes) (args : Args) where
  abbrev name : Bytes
  name = str_arg args (bytes "name") []

  -- a read that is the tool's answer
  unfoldable pub reading : Bytes → Bytes → Bytes → Bytes → Handler
  reading verb resource namespace what = do
    got ← request w as_user verb resource namespace what []
    answer_object got

  unfoldable pub making_from : Bytes → Bytes → Json → Handler
  making_from resource kind Json.null = failed (plain_error (bytes "body is required"))
  making_from resource kind body =
      on_result (w.parse_object body kind ns) failed
        (λ obj. do got ← request w as_user (bytes "create") resource ns [] obj; answer_object got)

  unfoldable pub making : Bytes → Bytes → Handler
  unfolding making_from
  making resource kind = making_from resource kind (arg_at args (bytes "body"))

  unfoldable pub deleting : Bytes → Handler
  deleting resource =
      if bool_arg args (bytes "allow_destructive")
      then (do
        got ← request w as_user (bytes "delete") resource ns name []
        on_result got failed (λ o. pure (ok (Output.deleted name))))
      else failed (plain_error (bytes "allow_destructive=true required"))

  -- the token of a forced run: the caller's, or the time
  unfoldable pub force_token : M Bytes
  unfolding decimal
  force_token =
      let token = str_arg args (bytes "token") [] in
      if is_empty token
      then (do now ← ask w.clock Event.read_clock; pure (decimal (now / second)))
      else pure token

  unfoldable pub force_run : Handler
  unfolding force_token
  force_run = do
    got ← request w as_user (bytes "get") (bytes "pvcbackups") ns name []
    on_result got failed (λ obj. do
      token ← force_token
      u ←
          request w as_user (bytes "update") (bytes "pvcbackups") ns name
            (w.annotate (bytes "operator.backrest.io/force-run") token obj)
      on_result u failed (λ o. pure (ok (Output.forced name token o))))

  unfoldable pub trigger_backup : Handler
  unfolding force_run making
  trigger_backup =
      if is_empty name then making (bytes "pvcbackups") (bytes "PVCBackup") else force_run

  abbrev pub part : List Bytes → Bytes → Bytes
  part path obj = elim (w.nested path obj) [ none ↦ [] | some v ↦ v ]

  unfoldable pub repo_status : Handler
  repo_status = do
    got ← request w as_user (bytes "get") (bytes "backuprepositories") ns name []
    on_result got failed (λ obj. pure (
        ok (
          Output.repo_status (part (bytes "metadata" ∷ []) obj) (part (bytes "status" ∷ []) obj)
            (part (bytes "spec" ∷ bytes "url" ∷ []) obj)
            (part (bytes "spec" ∷ bytes "appendOnly" ∷ []) obj))))

  -- the cases of the switch, in its order
  unfoldable pub tool_table : List (Bytes × Handler)
  unfolding reading making deleting trigger_backup repo_status list_snapshots
      get_snapshot_download_url create_snapshot_download get_snapshot_download get_host_config
      index_repository
  tool_table =
      (
        bytes "list_clusters",
        reading (bytes "list") (bytes "backrestclusters") (str_arg args (bytes "namespace") []) [],
      )
      ∷ (bytes "get_cluster", reading (bytes "get") (bytes "backrestclusters") ns name)
      ∷ (bytes "list_repositories", reading (bytes "list") (bytes "backuprepositories") ns [])
      ∷ (bytes "get_repository", reading (bytes "get") (bytes "backuprepositories") ns name)
      ∷ (bytes "create_repository", making (bytes "backuprepositories") (bytes "BackupRepository"))
      ∷ (bytes "delete_repository", deleting (bytes "backuprepositories"))
      ∷ (bytes "list_plans", reading (bytes "list") (bytes "backupplans") ns [])
      ∷ (bytes "create_plan", making (bytes "backupplans") (bytes "BackupPlan"))
      ∷ (bytes "delete_plan", deleting (bytes "backupplans"))
      ∷ (bytes "trigger_backup", trigger_backup)
      ∷ (bytes "create_pvc_restore", making (bytes "pvcrestores") (bytes "PVCRestore"))
      ∷ (bytes "get_pvc_restore", reading (bytes "get") (bytes "pvcrestores") ns name)
      ∷ (bytes "repo_status", repo_status)
      ∷ (bytes "list_snapshots", list_snapshots w as_user ns args)
      ∷ (bytes "get_snapshot_download_url", get_snapshot_download_url w as_user ns args)
      ∷ (bytes "create_snapshot_download", create_snapshot_download w as_user ns args)
      ∷ (bytes "get_snapshot_download", get_snapshot_download w as_user ns args)
      ∷ (bytes "get_host_config", get_host_config w args)
      ∷ (bytes "index_repository", index_repository w as_user ns args)
      ∷ []

-- Tools.Call
unfoldable pub call : World → UserIdentity → Bytes → Args → Handler
unfolding tool_table client_for
call w user tool args =
    let as_user = client_for user in
    on_option (w.client as_user) failed (
      on_option
        (lookup tool
          (tool_table w as_user (str_arg args (bytes "namespace") (bytes "default")) args))
        (λ run. run) (failed (plain_error (bytes "unknown tool " ++ tool))))
