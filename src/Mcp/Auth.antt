-- ===== src/Mcp/Auth.antt =====
-- internal/mcp/auth.go: who a caller is, and which tools he may run.
use backrest_operator.Prelude.{
  Bytes, bytes, Bool, true, false, ◌&&◌, ◌||◌, not, Option, none, some, List, [], ◌∷◌, any, ◌==◌,
  is_empty, if◌then◌else◌,
}
use backrest_operator.Prelude.Dict.{lookup}
use backrest_operator.Effects.{
  Result, ok, err, plain_error, Event, M, pure, ask, tell, ◌>>=◌, ◌>>◌, on_result, on_option,
}
use backrest_operator.Mcp.Calls.{UserIdentity, Permission, Call, Json, Args}
use backrest_operator.Mcp.World.{World, TokenStatus}

abbrev pub stdio_username : Bytes
stdio_username = bytes "mcp-stdio-local"

abbrev pub destructive_tools : List Bytes
destructive_tools = bytes "delete_repository" ∷ bytes "delete_plan" ∷ bytes "delete_snapshot" ∷ []

unfoldable pub is_destructive : Bytes → Bool
is_destructive tool = any (λ d. d == tool) destructive_tools

abbrev pub permission : Bytes → Bytes → Permission
permission verb resource = record {
  verb = verb;
  resource = resource;
  group = bytes "operator.backrest.io";
}

unfoldable pub tool_permissions : List (Bytes × Permission)
tool_permissions =
    (bytes "list_clusters", permission (bytes "list") (bytes "backrestclusters"))
    ∷ (bytes "get_cluster", permission (bytes "get") (bytes "backrestclusters"))
    ∷ (bytes "list_repositories", permission (bytes "list") (bytes "backuprepositories"))
    ∷ (bytes "get_repository", permission (bytes "get") (bytes "backuprepositories"))
    ∷ (bytes "create_repository", permission (bytes "create") (bytes "backuprepositories"))
    ∷ (bytes "update_repository", permission (bytes "update") (bytes "backuprepositories"))
    ∷ (bytes "delete_repository", permission (bytes "delete") (bytes "backuprepositories"))
    ∷ (bytes "list_plans", permission (bytes "list") (bytes "backupplans"))
    ∷ (bytes "get_plan", permission (bytes "get") (bytes "backupplans"))
    ∷ (bytes "create_plan", permission (bytes "create") (bytes "backupplans"))
    ∷ (bytes "update_plan", permission (bytes "update") (bytes "backupplans"))
    ∷ (bytes "delete_plan", permission (bytes "delete") (bytes "backupplans"))
    ∷ (bytes "trigger_backup", permission (bytes "update") (bytes "pvcbackups"))
    ∷ (bytes "list_snapshots", permission (bytes "get") (bytes "backuprepositories"))
    ∷ (bytes "get_snapshot_download_url", permission (bytes "get") (bytes "backuprepositories"))
    ∷ (bytes "create_snapshot_download", permission (bytes "create") (bytes "snapshotdownloads"))
    ∷ (bytes "get_snapshot_download", permission (bytes "get") (bytes "snapshotdownloads"))
    ∷ (bytes "get_snapshot", permission (bytes "get") (bytes "backuprepositories"))
    ∷ (bytes "delete_snapshot", permission (bytes "delete") (bytes "backuprepositories"))
    ∷ (bytes "get_host_config", permission (bytes "get") (bytes "backrestclusters"))
    ∷ (bytes "index_repository", permission (bytes "update") (bytes "backuprepositories"))
    ∷ (bytes "create_pvc_backup", permission (bytes "create") (bytes "pvcbackups"))
    ∷ (bytes "get_pvc_backup", permission (bytes "get") (bytes "pvcbackups"))
    ∷ (bytes "create_pvc_restore", permission (bytes "create") (bytes "pvcrestores"))
    ∷ (bytes "get_pvc_restore", permission (bytes "get") (bytes "pvcrestores"))
    ∷ (bytes "repo_status", permission (bytes "get") (bytes "backuprepositories"))
    ∷ []

-- the text of a value, empty for a value that is none
abbrev pub json_text : Option Json → Bytes
json_text (some (Json.text s)) = s
json_text _ = []

-- Without a name, trigger_backup makes a backup.
unfoldable pub trigger_permission : List (Bytes × Json) → Permission
trigger_permission args =
    if is_empty (json_text (lookup (bytes "name") args))
    then permission (bytes "create") (bytes "pvcbackups")
    else permission (bytes "update") (bytes "pvcbackups")

unfoldable pub refine_permission : Bytes → Args → Permission → Permission
unfolding trigger_permission
refine_permission tool none p = p
refine_permission tool (some args) p =
    if tool == bytes "trigger_backup" then trigger_permission args else p

-- the user of a TokenReview, if it has one
abbrev pub reviewed_user : TokenStatus → Result UserIdentity
reviewed_user s =
    if not s.authenticated || is_empty s.user.username
    then err (plain_error (bytes "token not authenticated"))
    else ok s.user

abbrev pub granted : Result Bool → Bool
granted (err e) = false
granted (ok b) = b

module _ (w : World) where
  unfoldable pub review_token : Bytes → M (Result UserIdentity)
  review_token token = do
    got ← ask w.token (Event.mcp (Call.review_token token))
    on_result got (λ e. pure (err e)) (λ s. pure (reviewed_user s))

  unfoldable pub subject_access_review : UserIdentity → Bytes → Permission → M Bool
  subject_access_review user namespace p =
      if w.has_clientset
      then (do
        got ← ask w.access (Event.mcp (Call.review_access user namespace p))
        pure (granted got))
      else pure false

  -- a refusal is counted
  unfoldable pub deny : Bytes → M Bool
  deny tool = do tell (Event.mcp (Call.denied tool)); pure false

  -- the local user needs no review
  unfoldable pub check_access : UserIdentity → Bytes → Bytes → Permission → M Bool
  unfolding subject_access_review deny
  check_access user tool namespace p = if user.username == stdio_username then pure true else (do
    allowed ← subject_access_review user namespace p
    (if allowed then pure true else deny tool))

  -- by whether the call is refused for want of a confirmation, and the tool's entry in the table
  unfoldable pub authorize_entry : Bytes → Bool → Option Permission → (Permission → M Bool) → M Bool
  unfolding deny
  authorize_entry tool unconfirmed entry check =
      if unconfirmed then deny tool else on_option entry check (deny tool)

  unfoldable pub authorize_tool : UserIdentity → Bytes → Bytes → Bool → Args → M Bool
  unfolding authorize_entry check_access refine_permission is_destructive tool_permissions
  authorize_tool user tool namespace allow_destructive args =
      authorize_entry tool (is_destructive tool && not allow_destructive)
        (lookup tool tool_permissions)
        (λ p. check_access user tool namespace (refine_permission tool args p))
