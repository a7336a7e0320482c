-- ===== src/Mcp/Calls.antt =====
-- What the MCP server asks of Kubernetes and of the Backrest hosts.
use backrest_operator.Prelude.{ℕ, Bytes, Bool, Option, List}
use backrest_operator.Prelude.Int.{ℤ}

pub record UserIdentity : Type 0 where
  pub username : Bytes
  pub groups : List Bytes
  pub uid : Bytes

-- verb, resource and group, as in the table
pub record Permission : Type 0 where
  pub verb : Bytes
  pub resource : Bytes
  pub group : Bytes

-- A call of the dynamic client. `as_user` is whom it impersonates, and `object` the JSON that is
-- written, which is empty for the other verbs.
pub record ApiCall : Type 0 where
  pub as_user : Option UserIdentity
  pub verb : Bytes
  pub resource : Bytes
  pub namespace : Bytes
  pub name : Bytes
  pub object : Bytes

pub record Mint : Type 0 where
  pub repo : Bytes
  pub snapshot : Bytes
  pub plan : Bytes
  pub path : Bytes
  pub public_base : Bytes
  pub mode : Bytes
  pub target : Bytes

-- the calls of a host's client that the tools use
pub data HostCall : Type 0 where
  get_config : HostCall
  list_snapshots : Bytes → Bytes → HostCall
  mint_download_url : Mint → HostCall
  index_snapshots : Bytes → HostCall

pub data Call : Type 0 where
  review_token : Bytes → Call
  review_access : UserIdentity → Bytes → Permission → Call
  denied : Bytes → Call
  api : ApiCall → Call
  -- a call of the host at a url
  host : Bytes → HostCall → Call

-- A value of a JSON object. Arrays and objects are kept as their text.
pub data Json : Type 0 where
  null : Json
  text : Bytes → Json
  flag : Bool → Json
  number : ℤ → Json
  other : Bytes → Json

-- map[string]interface{}, which may be nil
abbrev pub Args : Type 0
Args = Option (List (Bytes × Json))

pub record HostRepo : Type 0 where
  pub id : Bytes
  pub uri : Bytes
  pub password : Bytes
  pub env : List Bytes
  pub flags : List Bytes
  pub auto_initialize : Bool
  pub shared : Bool
  pub guid : Bytes

-- A host's configuration; the plans, `auth` and `sync` are kept as their text.
pub record HostConfig : Type 0 where
  pub modno : ℤ
  pub version : ℤ
  pub instance_name : Bytes
  pub repos : List HostRepo
  pub rest : Bytes

-- `expires` is a time in nanoseconds, if it is not Go's zero time.
pub record DownloadLink : Type 0 where
  pub download_url : Bytes
  pub relative_url : Bytes
  pub operation_id : ℤ
  pub path : Bytes
  pub expires : Option ℕ
  pub mode : Bytes
