-- ===== src/Entry.antt =====
-- cmd/operator/main.go and cmd/mcp/main.go: the settings of the binaries without flags on the command
-- line, which come from the environment. `getenv` is os.Getenv.
use backrest_operator.Prelude.{
  Bytes, bytes, Bool, true, false, List, [], ◌∷◌, ◌==◌, ◌++◌, is_empty, starts_with, if◌then◌else◌,
}
use backrest_operator.Filters.{trim_space}
use backrest_operator.Logging.{env_or, is_one_of}
use backrest_operator.Mcp.Server.{to_lower}

-- cmd/operator/main.go: envBool, by the value of the variable
unfoldable pub operator_bool : Bytes → Bool → Bool
operator_bool value def =
    if is_empty value
    then def
    else if is_one_of value
        (bytes "1" ∷ bytes "true" ∷ bytes "TRUE" ∷ bytes "yes" ∷ bytes "YES" ∷ [])
    then true
    else if is_one_of value
        (bytes "0" ∷ bytes "false" ∷ bytes "FALSE" ∷ bytes "no" ∷ bytes "NO" ∷ [])
    then false
    else def

abbrev pub on_words : List Bytes
on_words = bytes "1" ∷ bytes "true" ∷ bytes "yes" ∷ bytes "y" ∷ bytes "on" ∷ []

abbrev pub off_words : List Bytes
off_words = bytes "0" ∷ bytes "false" ∷ bytes "no" ∷ bytes "n" ∷ bytes "off" ∷ []

-- a text without white space around it, in small letters
unfoldable pub plain_word : Bytes → Bytes
unfolding trim_space to_lower
plain_word value = trim_space (to_lower value)

-- cmd/mcp/main.go: envBoolDefault
unfoldable pub env_bool_default : Bytes → Bool → Bool
unfolding plain_word
env_bool_default value def =
    if is_empty (plain_word value)
    then def
    else if is_one_of (plain_word value) on_words
    then true
    else if is_one_of (plain_word value) off_words
    then false
    else def

-- an address, or a port to listen on
unfoldable pub env_addr : Bytes → Bytes → Bytes
env_addr value def =
    if is_empty value
    then def
    else if starts_with value (bytes ":")
    then value
    else bytes ":" ++ value

pub record OperatorSettings : Type 0 where
  pub metrics_addr : Bytes
  pub probe_addr : Bytes
  pub enable_webhooks : Bool
  pub webhook_addr : Bytes
  pub webhook_cert_dir : Bytes

pub record McpSettings : Type 0 where
  pub mode : Bytes
  pub listen_addr : Bytes
  pub metrics_addr : Bytes
  pub require_auth : Bool

-- what the server of the tools reads from: standard input, or requests over HTTP
pub data Transport : Type 0 where
  stdio http : Transport

module _ (getenv : Bytes → Bytes) where
  unfoldable pub operator_settings : OperatorSettings
  unfolding env_addr operator_bool
  operator_settings = record {
    metrics_addr = env_addr (getenv (bytes "METRICS_PORT")) (bytes ":8080");
    probe_addr = env_addr (getenv (bytes "HEALTH_PORT")) (bytes ":8081");
    enable_webhooks = operator_bool (getenv (bytes "WEBHOOK_ENABLED")) true;
    webhook_addr = env_addr (getenv (bytes "WEBHOOK_PORT")) (bytes ":9443");
    webhook_cert_dir = env_or (getenv (bytes "WEBHOOK_CERT_DIR")) (bytes "/tls");
  }

  unfoldable pub mcp_settings : McpSettings
  unfolding env_addr env_bool_default
  mcp_settings = record {
    mode = env_or (getenv (bytes "MCP_MODE")) (bytes "http");
    listen_addr = env_addr (getenv (bytes "MCP_PORT")) (bytes ":8081");
    metrics_addr = env_addr (getenv (bytes "METRICS_PORT")) (bytes ":8080");
    require_auth = env_bool_default (getenv (bytes "MCP_REQUIRE_AUTH")) true;
  }

abbrev pub transport_of : McpSettings → Transport
transport_of s = if s.mode == bytes "stdio" then Transport.stdio else Transport.http
