-- ===== src/Mcp/Laws/Serving.antt =====
-- Which requests to the server reach a tool: handleRPC and the HTTP handler.
use backrest_operator.Prelude.{
  ◌≡◌, refl, ◌⊎◌, inl, inr, Bytes, bytes, Bool, true, false, some, ◌∷◌, ◌==◌, eq_iff, starts_with,
  Bool-cases, Option-cases, if◌then◌else◌,
}
use backrest_operator.Effects.{err, Event, Trace, M, pure, ask, tell}
use backrest_operator.Effects.Keeps.{
  Keeps, Keeps-pure, Keeps-bind, Keeps-if, Keeps-on_option, Keeps-on_result,
}
use backrest_operator.Mcp.Calls.{UserIdentity, Permission, Call, Args}
use backrest_operator.Mcp.World.{World, RpcRequest, CallParams}
use backrest_operator.Mcp.Auth.{
  subject_access_review, deny, check_access, authorize_entry, authorize_tool, review_token,
  reviewed_user,
}
use backrest_operator.Mcp.Tools.Arguments.{bool_arg}
use backrest_operator.Mcp.Server.{
  Response, namespace_arg, answer_tool, call_tool, handle_request, handle_rpc, resolve_http_user,
}
use backrest_operator.Mcp.Laws.Access.{IsAllowed, authorize_tool-IsAllowed}

-- a call of Kubernetes or of a host that a tool makes
abbrev pub is_tool_call : Event → Bool
is_tool_call (Event.mcp (Call.api c)) = true
is_tool_call (Event.mcp (Call.host url c)) = true
is_tool_call _ = false

-- the traces that follow `t` and in which no tool called anything after it
pub data Quiet (t : Trace) : Trace → Type 0 where
  start : Quiet t t
  other : {e : Event} {u : Trace} → is_tool_call e ≡ false → Quiet t u → Quiet t (e ∷ u)

module _ (w : World) (t : Trace) where
  deny-Quiet : (tool : Bytes) → Keeps (Quiet t) (deny w tool)
  unfolding deny tell
  deny-Quiet tool = record { at = λ u q. Quiet.other refl q }

  subject_access_review-Quiet :
      (user : UserIdentity) (ns : Bytes) (p : Permission)
      → Keeps (Quiet t) (subject_access_review w user ns p)
  unfolding subject_access_review ask
  subject_access_review-Quiet user ns p =
      Keeps-if w.has_clientset _ _ (record { at = λ u q. Quiet.other refl q }) (Keeps-pure false)

  ruleset quiet_rules = (
    Keeps-pure, Keeps-bind, Keeps-if, Keeps-on_option, Keeps-on_result, deny-Quiet,
    subject_access_review-Quiet,
  )

  check_access-Quiet :
      (user : UserIdentity) (tool ns : Bytes) (p : Permission)
      → Keeps (Quiet t) (check_access w user tool ns p)
  unfolding check_access
  check_access-Quiet user tool ns p = search quiet_rules depth 9

  authorize_tool-Quiet :
      (user : UserIdentity) (tool ns : Bytes) (flag : Bool) (args : Args)
      → Keeps (Quiet t) (authorize_tool w user tool ns flag args)
  unfolding authorize_tool authorize_entry
  authorize_tool-Quiet user tool ns flag args = search (quiet_rules, check_access-Quiet) depth 9

  review_token-Quiet : (token : Bytes) → Keeps (Quiet t) (review_token w token)
  unfolding review_token ask
  review_token-Quiet token =
      Keeps-bind (ask w.token (Event.mcp (Call.review_token token))) _
        (record { at = λ u q. Quiet.other refl q })
        (λ got.
          Keeps-on_result got _ _ (λ e. Keeps-pure (err e)) (λ s. Keeps-pure (reviewed_user s)))

  pub resolve_http_user-Quiet :
      (required : Bool) (auth : Bytes) → Keeps (Quiet t) (resolve_http_user w required auth)
  unfolding resolve_http_user
  resolve_http_user-Quiet required auth = search (quiet_rules, review_token-Quiet) depth 9

-- an action that calls nothing, unless `X`
abbrev pub Guarded : {A : Type 0} → Trace → Type 0 → M A → Type 0
Guarded t X m = Quiet t (m t).1 ⊎ X

pub Guarded-if :
    {A : Type 0} (t : Trace) {X : Type 0} (b : Bool) (m n : M A)
    → (b ≡ true → Guarded t X m)
    → Guarded t X n
    → Guarded t X (if b then m else n)
Guarded-if t true m n hm hn = hm refl
Guarded-if t false m n hm hn = hn

Quiet-if :
    (t : Trace) (b : Bool) (m : M Response) (r : Response) (u : Trace)
    → b ≡ false
    → Quiet t u
    → Quiet t ((if b then m else pure r) u).1
Quiet-if t true m r u h q = cc
Quiet-if t false m r u h q = q

pub Quiet-trans : {t u v : Trace} → Quiet t u → Quiet u v → Quiet t v
Quiet-trans q Quiet.start = q
Quiet-trans q (Quiet.other h r) = Quiet.other h (Quiet-trans q r)

module _ (w : World) (user : UserIdentity) where
  -- The body is a call of a tool that the user may run.
  pub record MayRun (body : Bytes) (t : Trace) : Type 0 where
    pub request : RpcRequest
    pub decoded : w.decode body ≡ some request
    pub is_call : request.method ≡ bytes "tools/call"
    pub allowed :
        let params = w.decode_params request.params in
        IsAllowed w user params.name
          (namespace_arg w params.arguments)
          (bool_arg params.arguments (bytes "allow_destructive"))
          params.arguments
          t

  call_tool-IsAllowed :
      (req : RpcRequest) (params : CallParams) (t : Trace)
      → Guarded t
          (IsAllowed w user params.name
            (namespace_arg w params.arguments)
            (bool_arg params.arguments (bytes "allow_destructive"))
            params.arguments
            t)
          (call_tool w user req params)
  unfolding call_tool
  call_tool-IsAllowed req params t =
      let ns = namespace_arg w params.arguments in
      let flag = bool_arg params.arguments (bytes "allow_destructive") in
      let decision = authorize_tool w user params.name ns flag params.arguments t in
      elim (Bool-cases decision.0) [
        | inl e ↦ inr ((authorize_tool-IsAllowed w user params.name ns flag params.arguments t).0 e)
        | inr e ↦ inl (
            Quiet-if t decision.0 (answer_tool w user req params) _ decision.1 e (
              (authorize_tool-Quiet w t user params.name ns flag params.arguments).at t
                Quiet.start))
      ]

  abbrev RequestMayRun : RpcRequest → Trace → Type 0
  RequestMayRun req t =
      (req.method ≡ bytes "tools/call")
      × (let params = w.decode_params req.params in
          IsAllowed w user params.name (namespace_arg w params.arguments)
            (bool_arg params.arguments (bytes "allow_destructive")) params.arguments t)

  called :
      (req : RpcRequest) (t : Trace)
      → req.method ≡ bytes "tools/call"
      → Guarded t (RequestMayRun req t) (call_tool w user req (w.decode_params req.params))
  called req t h = elim (call_tool-IsAllowed req (w.decode_params req.params) t) [
    | inl q ↦ inl q
    | inr a ↦ inr (h, a)
  ]

  handle_request-MayRun :
      (req : RpcRequest) (t : Trace) → Guarded t (RequestMayRun req t) (handle_request w user req)
  unfolding handle_request
  handle_request-MayRun req t =
      Guarded-if t (starts_with req.method (bytes "notifications/")) _ _ (λ _. inl Quiet.start)
        (Guarded-if t (req.method == bytes "initialize") _ _ (λ _. inl Quiet.start)
          (Guarded-if t (req.method == bytes "ping") _ _ (λ _. inl Quiet.start)
            (Guarded-if t (req.method == bytes "tools/list") _ _ (λ _. inl Quiet.start)
              (Guarded-if t (req.method == bytes "tools/call") _ _
                (λ h. called req t ((eq_iff req.method (bytes "tools/call")).0 h))
                (inl Quiet.start)))))

  -- A body leads to a call of Kubernetes or of a host only if it is a tools/call of a tool that
  -- AuthorizeTool allows.
  pub handle_rpc-MayRun :
      (body : Bytes) (t : Trace) → Quiet t (handle_rpc w user body t).1 ⊎ MayRun body t
  unfolding handle_rpc
  handle_rpc-MayRun body t = elim (Option-cases (w.decode body)) [
    | inl n ↦ rw n (inl Quiet.start)
    | inr (req, d) ↦ elim (handle_request-MayRun req t) [
      | inl q ↦ rw d (inl q)
      | inr (h, a) ↦ inr (record { request = req; decoded = d; is_call = h; allowed = a })
    ]
  ]
