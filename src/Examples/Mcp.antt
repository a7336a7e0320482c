-- ===== src/Examples/Mcp.antt =====
-- A cluster for the MCP server: one user with a token, who may get and list but not delete.
use backrest_operator.Prelude.{bytes, Bool, true, false, none, some, [], ◌∷◌, ◌==◌}
use backrest_operator.Prelude.Int.{pos}
use backrest_operator.Effects.{Event, Trace, Result, ok, err, plain_error}
use backrest_operator.Mcp.Calls.{UserIdentity, Call, Json, Args, HostConfig}
use backrest_operator.Mcp.World.{World, RpcRequest}
use backrest_operator.Mcp.Server.{HttpRequest}
use backrest_operator.Examples.Restores.{passed}

abbrev pub alice : UserIdentity
alice = record { username = bytes "alice"; groups = bytes "devs" ∷ []; uid = bytes "1" }

abbrev reviewed : Trace → Result Bool
reviewed (Event.mcp (Call.review_access user ns p) ∷ t) = ok (p.verb == bytes "get")
reviewed _ = ok false

abbrev pub host_config : HostConfig
host_config = record {
  modno = pos 1;
  version = pos 4;
  instance_name = bytes "main";
  repos =
      record {
        id = bytes "repo";
        uri = bytes "s3:bucket";
        password = bytes "hunter2";
        env = bytes "AWS_SECRET_ACCESS_KEY=x" ∷ [];
        flags = [];
        auto_initialize = true;
        shared = false;
        guid = [];
      }
      ∷ [];
  rest = [];
}

abbrev pub args : Args
args = some ((bytes "name", Json.text (bytes "repo")) ∷ [])

abbrev pub get_request : RpcRequest
get_request = record { id = bytes "1"; method = bytes "tools/call"; params = [] }

abbrev pub world : World
world = record {
  has_clientset = true;
  token = λ t. ok (record { authenticated = true; user = alice });
  access = reviewed;
  api = λ t. ok [];
  config = λ t. ok host_config;
  snapshots = λ t. ok [];
  link = λ t. err (plain_error []);
  indexed = λ t. none;
  clock = passed;
  cancelled = λ t. none;
  decode = λ s. some get_request;
  decode_params = λ s. record { name = bytes "get_repository"; arguments = args };
  render = λ o. [];
  client = λ u. none;
  parse_object = λ j k n. ok [];
  nested = λ p o. none;
  annotate = λ k v o. o;
  encode_object = λ o. [];
  public_base_url = [];
}

abbrev pub posted : HttpRequest world
posted = record {
  verb = bytes "POST";
  authorization = bytes "Bearer token";
  session = [];
  accept = [];
  body = ok [];
}
