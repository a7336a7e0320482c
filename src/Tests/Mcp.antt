-- ===== src/Tests/Mcp.antt =====
-- The theorems on the MCP server, at a small cluster.
use backrest_operator.Prelude.{
  ◌≡◌, ◌≢◌, ◌↔◌, ◌⊎◌, refl, Bytes, bytes, true, false, some, [], All, ◌==◌, eq_iff,
}
use backrest_operator.Effects.{ok, ask, Result}
use backrest_operator.Examples.Mcp.{alice, args, world, posted, host_config}
use backrest_operator.Mcp.World.{Output, host}
use backrest_operator.Mcp.Auth.{authorize_tool}
use backrest_operator.Mcp.Tools.{call}
use backrest_operator.Mcp.Tools.Hosts.{redact_config, get_host_config}
use backrest_operator.Mcp.Server.{namespace_arg, serve_http}
use backrest_operator.Mcp.Laws.Access.{IsAllowed, authorize_tool-IsAllowed}
use backrest_operator.Mcp.Laws.Serving.{Quiet}
use backrest_operator.Mcp.Laws.Http.{MayServe, serve_http-MayServe}
use backrest_operator.Entry.{env_addr}
use backrest_operator.Mcp.Laws.Requests.{call-Signed}
use backrest_operator.Mcp.Laws.Signed.{Signed}
use backrest_operator.Mcp.Laws.Secrets.{HidesSecrets, get_host_config-HidesSecrets}

authorize_tool-IsAllowed_example :
    ((authorize_tool world alice (bytes "get_repository") (bytes "apps") false args []).0 ≡ true)
    ↔ IsAllowed world alice (bytes "get_repository") (bytes "apps") false args []
authorize_tool-IsAllowed_example =
    authorize_tool-IsAllowed world alice (bytes "get_repository") (bytes "apps") false args []

serve_http-MayServe_example :
    Quiet [] (serve_http world true (bytes "id") posted []).1 ⊎ MayServe world posted []
serve_http-MayServe_example = serve_http-MayServe world posted [] (bytes "id")

-- a port gets a colon, an address that begins with one stays
env_addr-port : env_addr (bytes "8443") (bytes ":8081") ≡ bytes ":8443"
unfolding env_addr bytes
env_addr-port = refl

env_addr-address : env_addr (bytes ":8443") (bytes ":8081") ≡ bytes ":8443"
unfolding env_addr bytes
env_addr-address = refl

differs : (a b : Bytes) → (a == b) ≡ false → a ≢ b
differs a b h e = cc ((eq_iff a b).1 e)

call-Signed_example :
    Signed
      (some alice)
      (namespace_arg world args)
      []
      (call world alice (bytes "trigger_backup") args []).1
unfolding bytes ◌==◌
call-Signed_example =
    call-Signed world alice (bytes "trigger_backup") args []
      (differs (bytes "alice") (bytes "mcp-stdio-local") refl)
      (differs (bytes "trigger_backup") (bytes "list_clusters") refl)

get_host_config-HidesSecrets_example : All HidesSecrets (redact_config host_config).repos
unfolding get_host_config host ask
get_host_config-HidesSecrets_example =
    get_host_config-HidesSecrets world args (redact_config host_config) [] refl

abbrev finish : Bytes → Result Output
finish o = ok (Output.object o)
