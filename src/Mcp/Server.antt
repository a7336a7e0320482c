-- ===== src/Mcp/Server.antt =====
-- internal/mcp/server.go: JSON-RPC, the HTTP handler and the loop over standard input.
use backrest_operator.Prelude.{
  ℕ, ◌⊎◌, inl, inr, eq_num, Bytes, bytes, Bool, false, ◌&&◌, ◌||◌, not, ◌++◌, Option, none, some,
  List, [], ◌∷◌, map, ◌+◌, ◌==◌, is_empty, starts_with, leb, if◌then◌else◌,
}
use backrest_operator.Prelude.Int.{ℤ, pos, negsuc}
use backrest_operator.Effects.{Result, ok, err, plain_error, M, pure, ◌>>=◌, on_result, on_option}
use backrest_operator.Filters.{trim_space}
use backrest_operator.Mcp.Calls.{UserIdentity, Args}
use backrest_operator.Mcp.World.{World, Output, RpcRequest, CallParams}
use backrest_operator.Mcp.Auth.{stdio_username, authorize_tool, review_token}
use backrest_operator.Mcp.Tools.{call}
use backrest_operator.Mcp.Tools.Arguments.{str_arg, bool_arg}

-- What a result holds. The tools are listed by a schema that stands in the code.
pub data Payload : Type 0 where
  initialized pong tools : Payload
  content : Bytes → Payload

-- The body of a response, before it is rendered. An error of a body that did not parse has no id.
pub data Reply : Type 0 where
  nothing : Reply
  result : Bytes → Payload → Reply
  failure : Option Bytes → ℤ → Bytes → Reply

pub record Response : Type 0 where
  pub reply : Reply
  pub status : ℕ
  pub method : Bytes

abbrev pub respond : Reply → ℕ → Bytes → Response
respond reply status method = record { reply = reply; status = status; method = method }

-- strings.Contains
unfoldable pub contains_text : Bytes → Bytes → Bool
contains_text [] part = is_empty part
contains_text (c ∷ s) part = starts_with (c ∷ s) part || contains_text s part

abbrev lower_byte : ℕ → ℕ
lower_byte c = if leb b'A' c && leb c b'Z' then c + 32 else c

-- strings.ToLower, of ASCII: a prefix of ASCII letters without `i` and `k` is read the same
unfoldable pub to_lower : Bytes → Bytes
to_lower s = map lower_byte s

-- s[7:]
abbrev pub after_bearer : Bytes → Bytes
after_bearer (a ∷ b ∷ c ∷ d ∷ e ∷ f ∷ g ∷ s) = s
after_bearer _ = []

unfoldable pub anonymous_user : UserIdentity
anonymous_user = record {
  username = stdio_username;
  groups = bytes "system:authenticated" ∷ bytes "backrest:mcp-open" ∷ [];
  uid = [];
}

unfoldable pub stdio_user : UserIdentity
stdio_user = record {
  username = stdio_username;
  groups = bytes "system:authenticated" ∷ [];
  uid = [];
}

abbrev pub has_bearer : Bytes → Bool
has_bearer auth = starts_with (to_lower auth) (bytes "bearer ")

-- the token of an Authorization header
abbrev pub bearer_token : Bytes → Bytes
bearer_token auth = trim_space (after_bearer auth)

module _ (w : World) where
  abbrev pub namespace_arg : Args → Bytes
  namespace_arg args = str_arg args (bytes "namespace") (bytes "default")

  -- what a tool answered
  abbrev pub tool_response : RpcRequest → Result Output → Response
  tool_response req (err e) =
      if contains_text e.message (bytes "allow_destructive")
      then respond (Reply.failure (some req.id) (pos 403) e.message) 403 req.method
      else respond (Reply.failure (some req.id) (pos 500) e.message) 500 req.method
  tool_response req (ok o) =
      respond (Reply.result req.id (Payload.content (w.render o))) 200 req.method

  abbrev pub forbidden : RpcRequest → Bytes → Response
  forbidden req tool =
      respond (Reply.failure (some req.id) (pos 403) (bytes "forbidden: " ++ tool)) 403 req.method

  unfoldable pub answer_tool : UserIdentity → RpcRequest → CallParams → M Response
  unfolding call
  answer_tool user req params = do
    got ← call w user params.name params.arguments
    pure (tool_response req got)

  -- tools/call
  unfoldable pub call_tool : UserIdentity → RpcRequest → CallParams → M Response
  unfolding authorize_tool answer_tool
  call_tool user req params = do
    allowed ←
        authorize_tool w user params.name (namespace_arg params.arguments)
          (bool_arg params.arguments (bytes "allow_destructive")) params.arguments
    (if allowed then answer_tool user req params else pure (forbidden req params.name))

  unfoldable pub handle_request : UserIdentity → RpcRequest → M Response
  unfolding call_tool
  handle_request user req =
      if starts_with req.method (bytes "notifications/")
      then pure (respond Reply.nothing 202 req.method)
      else if req.method == bytes "initialize"
      then pure (respond (Reply.result req.id Payload.initialized) 200 req.method)
      else if req.method == bytes "ping"
      then pure (respond (Reply.result req.id Payload.pong) 200 req.method)
      else if req.method == bytes "tools/list"
      then pure (respond (Reply.result req.id Payload.tools) 200 req.method)
      else if req.method == bytes "tools/call"
      then call_tool user req (w.decode_params req.params)
      else pure (
          respond (Reply.failure (some req.id) (negsuc 32600) (bytes "method not found")) 404
            req.method)

  unfoldable pub handle_rpc : UserIdentity → Bytes → M Response
  unfolding handle_request
  handle_rpc user body =
      on_option (w.decode body) (λ req. handle_request user req)
        (pure (respond (Reply.failure none (negsuc 32699) (bytes "parse error")) 400 []))

  -- who sends a request over HTTP
  unfoldable pub resolve_http_user : Bool → Bytes → M (Result UserIdentity)
  unfolding review_token
  resolve_http_user require_auth auth =
      if not require_auth
      then if has_bearer auth && not (is_empty (bearer_token auth))
        then (do
          got ← review_token w (bearer_token auth)
          on_result got (λ e. pure (ok anonymous_user)) (λ user. pure (ok user)))
        else pure (ok anonymous_user)
      else if not (has_bearer auth)
      then pure (err (plain_error (bytes "Bearer Kubernetes token required")))
      else review_token w (bearer_token auth)

  -- A request to /mcp: its method, the headers that are looked at, and its body or the error of
  -- reading it.
  pub record HttpRequest : Type 0 where
    pub verb : Bytes
    pub authorization : Bytes
    pub session : Bytes
    pub accept : Bytes
    pub body : Result Bytes

  -- the status, the session header, whether the body is an event stream, and the body
  pub record HttpResponse : Type 0 where
    pub code : ℕ
    pub session_id : Bytes
    pub event_stream : Bool
    pub answer : Reply ⊎ Bytes

  abbrev pub http_error : ℕ → Bytes → HttpResponse
  http_error code text = record {
    code = code;
    session_id = [];
    event_stream = false;
    answer = inr text;
  }

  -- The session of the answer: a new one for the first request, else the one that was sent.
  unfoldable pub session_header : Bytes → Bytes → Bytes → Bytes
  session_header method sent fresh =
      if (method == bytes "initialize") && is_empty sent then fresh else sent

  abbrev pub http_answer : HttpRequest → Bytes → Response → HttpResponse
  http_answer r fresh resp =
      if eq_num resp.status 202
      then record { code = 202; session_id = []; event_stream = false; answer = inr [] }
      else record {
        code = resp.status;
        session_id = session_header resp.method r.session fresh;
        event_stream = contains_text r.accept (bytes "text/event-stream");
        answer = inl resp.reply;
      }

  -- `fresh` is newSessionID's random text
  unfoldable pub serve_body : Bytes → HttpRequest → UserIdentity → Result Bytes → M HttpResponse
  unfolding handle_rpc session_header
  serve_body fresh r user (err e) = pure (http_error 400 e.message)
  serve_body fresh r user (ok body) = do
    resp ← handle_rpc user body
    pure (http_answer r fresh resp)

  unfoldable pub serve_user : Bytes → HttpRequest → Result UserIdentity → M HttpResponse
  unfolding serve_body
  serve_user fresh r (err e) = pure (http_error 401 e.message)
  serve_user fresh r (ok user) = serve_body fresh r user r.body

  unfoldable pub serve_http : Bool → Bytes → HttpRequest → M HttpResponse
  unfolding resolve_http_user serve_user
  serve_http require_auth fresh r =
      if r.verb == bytes "POST"
      then (do who ← resolve_http_user require_auth r.authorization; serve_user fresh r who)
      else if (r.verb == bytes "GET") || (r.verb == bytes "DELETE")
      then pure (http_error 405 (bytes "Method Not Allowed"))
      else pure (http_error 405 (bytes "method not allowed"))

  abbrev pub printed : Reply → List Reply → List Reply
  printed Reply.nothing rest = rest
  printed reply rest = reply ∷ rest

  -- RunStdio: the replies to the lines of standard input, an empty line apart
  unfoldable pub run_stdio : List Bytes → M (List Reply)
  unfolding handle_rpc
  run_stdio [] = pure []
  run_stdio (line ∷ lines) = if is_empty (trim_space line) then run_stdio lines else (do
    resp ← handle_rpc stdio_user (trim_space line)
    rest ← run_stdio lines
    pure (printed resp.reply rest))
