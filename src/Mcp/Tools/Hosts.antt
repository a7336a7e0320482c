-- ===== src/Mcp/Tools/Hosts.antt =====
-- internal/mcp/tools.go: the tools that call a Backrest host.
use backrest_operator.Prelude.{
  Bytes, bytes, ◌&&◌, not, Option, none, some, List, [], ◌∷◌, map, is_empty, or_text, if◌then◌else◌,
}
use backrest_operator.Effects.{Result, ok, err, Error, M, pure, ◌>>=◌, on_result, on_option}
use backrest_operator.Backup.Host.{host_url}
use backrest_operator.Mcp.Calls.{UserIdentity, HostCall, HostRepo, HostConfig, Args}
use backrest_operator.Mcp.World.{World, Output, api, host}
use backrest_operator.Mcp.Tools.Arguments.{str_arg}

-- what runs for a tool
abbrev pub Handler : Type 0
Handler = M (Result Output)

abbrev pub failed : Error → Handler
failed e = pure (err e)

abbrev pub answer_object : Result Bytes → Handler
answer_object (err e) = pure (err e)
answer_object (ok o) = pure (ok (Output.object o))

-- a call of the user's dynamic client
abbrev pub request :
    World → Option UserIdentity → Bytes → Bytes → Bytes → Bytes → Bytes → M (Result Bytes)
request w as_user verb resource namespace name object = api w (record {
  as_user = as_user;
  verb = verb;
  resource = resource;
  namespace = namespace;
  name = name;
  object = object;
})

-- the text at a path, unless it is missing or empty
abbrev nested_or : World → List Bytes → Bytes → Bytes → Bytes
nested_or w path obj def = elim (w.nested path obj) [ none ↦ def | some v ↦ or_text v def ]

-- where the host is, with the names that stand in for missing ones
abbrev pub host_at : Bytes → Bytes → Bytes
host_at namespace name = host_url (record {
  namespace = or_text namespace (bytes "backrest");
  name = or_text name (bytes "main");
})

-- a password and the values of an environment, before they leave the operator
abbrev pub redacted : Bytes → Bytes
redacted [] = []
redacted (c ∷ s) = bytes "***"

abbrev pub redact_repo : HostRepo → HostRepo
redact_repo r = record r { password = redacted r.password; env = map (λ v. bytes "***") r.env }

abbrev pub redact_config : HostConfig → HostConfig
redact_config c = record c { repos = map redact_repo c.repos }

module _ (w : World) where
  unfoldable pub get_host_config : Args → Handler
  get_host_config args = do
    got ←
        host w.config
          (host_at (str_arg args (bytes "cluster_namespace") (bytes "backrest"))
            (str_arg args (bytes "cluster_name") (bytes "main")))
          HostCall.get_config
    on_result got failed (λ c. pure (ok (Output.config (redact_config c))))

  module _ (as_user : Option UserIdentity) (ns : Bytes) (args : Args) where
    -- A host by the arguments, or by the repository where they name none.
    unfoldable pub host_client_from_args : Bytes → M (Result Bytes)
    host_client_from_args repo =
        let namespace = str_arg args (bytes "cluster_namespace") [] in
        let name = str_arg args (bytes "cluster_name") [] in
        if is_empty name && not (is_empty repo)
        then (do
          got ← request w as_user (bytes "get") (bytes "backuprepositories") ns repo []
          on_result got (λ e. pure (err e))
              (λ obj. pure (
                ok (
                  host_at
                    (nested_or w
                      (bytes "spec"
                        ∷ bytes "backrest"
                        ∷ bytes "clusterRef"
                        ∷ bytes "namespace"
                        ∷ [])
                      obj namespace)
                    (nested_or w
                      (bytes "spec" ∷ bytes "backrest" ∷ bytes "clusterRef" ∷ bytes "name" ∷ []) obj
                      name)))))
        else pure (ok (host_at namespace name))

    unfoldable pub list_snapshots : Handler
    unfolding host_client_from_args
    list_snapshots = do
      let name = str_arg args (bytes "name") []
      let plan = str_arg args (bytes "plan_id") []
      client ← host_client_from_args name
      on_result client failed (λ url. do
        got ← host w.snapshots url (HostCall.list_snapshots name plan)
        on_result got failed (λ snaps. pure (ok (Output.snapshots name plan snaps))))

    unfoldable pub index_repository : Handler
    unfolding host_client_from_args
    index_repository = do
      let name = str_arg args (bytes "name") []
      client ← host_client_from_args name
      on_result client failed (λ url. do
        e ← host w.indexed url (HostCall.index_snapshots name)
        on_option e failed (pure (ok (Output.indexed name))))
