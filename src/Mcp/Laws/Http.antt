-- ===== src/Mcp/Laws/Http.antt =====
-- Whose HTTP requests reach a tool: resolveHTTPUser and the handler of /mcp.
use backrest_operator.Prelude.{
  ◌≡◌, refl, ◌⊎◌, inl, inr, Bytes, bytes, Bool, true, false, ◌∷◌, ◌==◌, is_empty, not, ◌||◌,
  if◌then◌else◌, arith,
}
use backrest_operator.Effects.{Result, ok, err, Error, Event, Trace, M, pure, ask, on_result}
use backrest_operator.Mcp.Calls.{UserIdentity, Call}
use backrest_operator.Mcp.World.{World, TokenStatus}
use backrest_operator.Mcp.Auth.{review_token, reviewed_user}
use backrest_operator.Mcp.Server.{
  resolve_http_user, has_bearer, bearer_token, HttpRequest, serve_body, serve_user, serve_http,
}
use backrest_operator.Mcp.Laws.Serving.{
  Quiet, Quiet-trans, Guarded, Guarded-if, MayRun, resolve_http_user-Quiet, handle_rpc-MayRun,
}

-- The header has a bearer token, and its TokenReview, the next request, names the user.
pub record IsReviewed (w : World) (auth : Bytes) (t : Trace) (user : UserIdentity) : Type 0 where
  pub bearer : has_bearer auth ≡ true
  pub answer : TokenStatus
  pub review : w.token (Event.mcp (Call.review_token (bearer_token auth)) ∷ t) ≡ ok answer
  pub authenticated : answer.authenticated ≡ true
  pub is_named : is_empty answer.user.username ≡ false
  pub same : answer.user ≡ user

if-ok {ℓ} :
    {A : Type ℓ} (b : Bool) (e : Error) (a c : A)
    → (if b then err e else ok a) ≡ ok c
    → (b ≡ false) × (a ≡ c)
if-ok true e a c h = cc
if-ok false e a c h = (refl, cc)

unless-ok :
    (b : Bool) (e : Error) (m : M (Result UserIdentity)) (t : Trace) (user : UserIdentity)
    → ((if not b then pure (err e) else m) t).0 ≡ ok user
    → (b ≡ true) × ((m t).0 ≡ ok user)
unless-ok true e m t user h = (refl, h)
unless-ok false e m t user h = cc

review-ok :
    (r : Result TokenStatus) (u : Trace) (user : UserIdentity)
    → (on_result r (λ e. pure (err e)) (λ s. pure (reviewed_user s)) u).0 ≡ ok user
    → (s : TokenStatus) × (r ≡ ok s) × (reviewed_user s ≡ ok user)
review-ok (err e) u user h = cc
review-ok (ok s) u user h = (s, refl, h)

-- When authentication is required, a request has a user only if its header has a bearer token, whose
-- TokenReview says that it is authenticated and names that user.
resolve_http_user-IsReviewed :
    (w : World) (auth : Bytes) (user : UserIdentity) (t : Trace)
    → (resolve_http_user w true auth t).0 ≡ ok user
    → IsReviewed w auth t user
unfolding resolve_http_user review_token ask
resolve_http_user-IsReviewed w auth user t h =
    let (bearer, reviewed) =
      unless-ok (has_bearer auth) _ (review_token w (bearer_token auth)) t user h in
    let (s, answered, named) = review-ok _ _ user reviewed in
    let (fine, same) =
      if-ok (not s.authenticated || is_empty s.user.username) _ s.user user named in
    record {
      bearer = bearer;
      answer = s;
      review = answered;
      authenticated = ground (arith, fine);
      is_named = ground (arith, fine);
      same = same;
    }

module _ (w : World) (r : HttpRequest w) (t : Trace) where
  abbrev pub resolved : Result UserIdentity × Trace
  resolved = resolve_http_user w true r.authorization t

  -- The request is sent by a reviewed user, and its body is a call of a tool that he may run.
  pub record MayServe : Type 0 where
    pub user : UserIdentity
    pub reviewed : IsReviewed w r.authorization t user
    pub body : Bytes
    pub was_read : r.body ≡ ok body
    pub may_run : MayRun w user body resolved.1

  served-body :
      (fresh : Bytes) (user : UserIdentity) (sent : Result Bytes)
      → IsReviewed w r.authorization t user
      → r.body ≡ sent
      → Quiet resolved.1 (serve_body w fresh r user sent resolved.1).1 ⊎ MayServe
  unfolding serve_body
  served-body fresh user (err e) h s = inl Quiet.start
  served-body fresh user (ok body) h s = elim (handle_rpc-MayRun w user body resolved.1) [
    | inl q ↦ inl q
    | inr m ↦ inr (record { user = user; reviewed = h; body = body; was_read = s; may_run = m })
  ]

  served-user :
      (fresh : Bytes) (who : Result UserIdentity)
      → resolved.0 ≡ who
      → Quiet resolved.1 (serve_user w fresh r who resolved.1).1 ⊎ MayServe
  unfolding serve_user
  served-user fresh (err e) h = inl Quiet.start
  served-user fresh (ok user) h =
      served-body fresh user r.body (resolve_http_user-IsReviewed w r.authorization user t h) refl

  posted : (fresh : Bytes) → Guarded t MayServe (λ u. serve_user w fresh r resolved.0 resolved.1)
  posted fresh = elim (served-user fresh resolved.0 refl) [
    | inl q ↦
        inl (Quiet-trans ((resolve_http_user-Quiet w t true r.authorization).at t Quiet.start) q)
    | inr m ↦ inr m
  ]

  -- When authentication is required, a request over HTTP leads to a call of Kubernetes or of a host
  -- only if the token in its header was reviewed, and its body is a tools/call of a tool that
  -- AuthorizeTool allows the user of that token.
  pub serve_http-MayServe : (fresh : Bytes) → Quiet t (serve_http w true fresh r t).1 ⊎ MayServe
  unfolding serve_http
  serve_http-MayServe fresh =
      Guarded-if t (r.verb == bytes "POST") _ _ (λ _. posted fresh)
        (Guarded-if t ((r.verb == bytes "GET") || (r.verb == bytes "DELETE")) _ _
          (λ _. inl Quiet.start) (inl Quiet.start))
