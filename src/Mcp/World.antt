-- ===== src/Mcp/World.antt =====
-- What answers the MCP server, and the values of its tools.
use backrest_operator.Prelude.{ℕ, Bytes, Bool, Option, List}
use backrest_operator.Effects.{Result, Error, Trace, Event, M, ask}
use backrest_operator.Mcp.Calls.{
  UserIdentity, Call, ApiCall, HostCall, HostConfig, DownloadLink, Json, Args,
}

-- a TokenReview as it comes back
pub record TokenStatus : Type 0 where
  pub authenticated : Bool
  pub user : UserIdentity

-- what a tool gives, to be rendered as JSON
pub data Output : Type 0 where
  -- an object or a list of them, as it was read
  object : Bytes → Output
  deleted : Bytes → Output
  forced : Bytes → Bytes → Bytes → Output
  repo_status : Bytes → Bytes → Bytes → Bytes → Output
  snapshots : Bytes → Bytes → List Bytes → Output
  link : Bytes → Bytes → DownloadLink → Output
  download : Bytes → Bytes → List (Bytes × Bytes) → Output
  config : HostConfig → Output
  -- a SnapshotDownload that was made: its name and namespace, its status, mode, snapshot and repository
  created : Bytes → Bytes → List (Bytes × Bytes) → Bytes → Bytes → Bytes → Output
  indexed : Bytes → Output

-- a JSON-RPC request, its `id` and `params` as text
pub record RpcRequest : Type 0 where
  pub id : Bytes
  pub method : Bytes
  pub params : Bytes

pub record CallParams : Type 0 where
  pub name : Bytes
  pub arguments : Args

-- The answers to a call, which is the first of the trace, and the libraries: encoding/json
-- (`decode`, `decode_params`, `render`), the unstructured objects (`parse_object`, `nested`,
-- `annotate`, `encode_object`, which makes an object of the texts at its paths), the configuration of a client and an environment variable. `has_clientset` is false
-- for an Auth that was made for tests.
pub record World : Type 0 where
  pub has_clientset : Bool
  pub token : Trace → Result TokenStatus
  pub access : Trace → Result Bool
  pub api : Trace → Result Bytes
  pub config : Trace → Result HostConfig
  pub snapshots : Trace → Result (List Bytes)
  pub link : Trace → Result DownloadLink
  pub indexed : Trace → Option Error
  pub clock : Trace → ℕ
  pub cancelled : Trace → Option Error
  pub decode : Bytes → Option RpcRequest
  pub decode_params : Bytes → CallParams
  pub render : Output → Bytes
  pub client : Option UserIdentity → Option Error
  pub parse_object : Json → Bytes → Bytes → Result Bytes
  pub nested : List Bytes → Bytes → Option Bytes
  pub annotate : Bytes → Bytes → Bytes → Bytes
  pub encode_object : List (List Bytes × Bytes) → Bytes
  pub public_base_url : Bytes

unfoldable pub api : World → ApiCall → M (Result Bytes)
api w c = ask w.api (Event.mcp (Call.api c))

unfoldable pub host : {A : Type 0} → (Trace → A) → Bytes → HostCall → M A
host answer url c = ask answer (Event.mcp (Call.host url c))
