-- ===== src/Mcp/Laws/Access.antt =====
-- Which tool calls are let through: AuthorizeTool.
use backrest_operator.Prelude.{
  ◌≡◌, refl, sym, ◌∙◌, if◌then◌else◌, ◌↔◌, ◌⊎◌, inl, inr, Bytes, Bool, true, false, ◌&&◌, not,
  Option, none, some, ◌∷◌, ◌==◌, eq_iff, Bool-cases, arith,
}
use backrest_operator.Prelude.Dict.{lookup}
use backrest_operator.Effects.{Result, ok, err, Event, Trace, M, pure, ask, tell}
use backrest_operator.Mcp.Calls.{UserIdentity, Permission, Call, Args}
use backrest_operator.Mcp.World.{World}
use backrest_operator.Mcp.Auth.{
  stdio_username, is_destructive, tool_permissions, refine_permission, subject_access_review, deny,
  check_access, authorize_entry, authorize_tool, granted,
}

both : (d f : Bool) → (d ≡ true → f ≡ true) → (d && not f) ≡ false
both true f h = ground (arith, h refl)
both false f h = refl

module _ (w : World) (user : UserIdentity) (tool ns : Bytes) (flag : Bool) (args : Args)
    (t : Trace) where
  -- The user is the local one, or an access review of the tool's permission in the namespace, which
  -- is the next request, says yes.
  abbrev pub HasAccess : Permission → Type 0
  HasAccess p =
      (user.username ≡ stdio_username)
      ⊎ ((w.has_clientset ≡ true)
          × (w.access (Event.mcp (Call.review_access user ns (refine_permission tool args p)) ∷ t)
              ≡ ok true))

  -- The tool is in the table, the caller has its permission, and a destructive one was confirmed.
  pub record IsAllowed : Type 0 where
    pub permission : Permission
    pub listed : lookup tool tool_permissions ≡ some permission
    pub confirmed : is_destructive tool ≡ true → flag ≡ true
    pub access : HasAccess permission

  granted-true : (r : Result Bool) → granted r ≡ true → r ≡ ok true
  granted-true (err e) h = cc
  granted-true (ok b) h = cc

  -- the review of a permission says yes
  abbrev Reviewed : Permission → Type 0
  Reviewed p =
      (w.has_clientset ≡ true) × (w.access (Event.mcp (Call.review_access user ns p) ∷ t) ≡ ok true)

  subject_access_review-true :
      (p : Permission) → ((subject_access_review w user ns p t).0 ≡ true) ↔ Reviewed p
  unfolding subject_access_review ask
  subject_access_review-true p = elim (Bool-cases w.has_clientset) [
    | inl e ↦ rw e (λ h. (refl, granted-true _ h), λ (f, r). rw r)
    | inr e ↦ rw e (λ h. cc, λ (f, r). cc)
  ]

  after_review :
      (reviewed : Bool) (u : Trace) → ((if reviewed then pure true else deny w tool) u).0 ≡ reviewed
  unfolding deny tell
  after_review true u = refl
  after_review false u = refl

  stdio-access :
      (p : Permission)
      → HasAccess p
      → (user.username == stdio_username) ≡ false
      → Reviewed (refine_permission tool args p)
  stdio-access p (inl s) e = cc ((eq_iff user.username stdio_username).1 s)
  stdio-access p (inr r) e = r

  check_access-true :
      (p : Permission)
      → ((check_access w user tool ns (refine_permission tool args p) t).0 ≡ true) ↔ HasAccess p
  unfolding check_access
  check_access-true p =
      let review = subject_access_review w user ns (refine_permission tool args p) t in
      let after = after_review review.0 review.1 in
      let reviewed = subject_access_review-true (refine_permission tool args p) in
      elim (Bool-cases (user.username == stdio_username)) [
        | inl e ↦ rw e (λ h. inl ((eq_iff user.username stdio_username).0 e), λ a. refl)
        | inr e ↦
            rw e
              (λ h. inr (reviewed.0 (sym after ∙ h)), λ a. after ∙ reviewed.1 (stdio-access p a e))
      ]

  authorize_entry-true :
      (unconfirmed : Bool) (entry : Option Permission) (check : Permission → M Bool)
      → ((authorize_entry w tool unconfirmed entry check t).0 ≡ true)
        ↔ ((unconfirmed ≡ false) × (p : Permission) × (entry ≡ some p) × ((check p t).0 ≡ true))
  unfolding authorize_entry deny tell
  authorize_entry-true true entry check = (λ h. cc, λ h. cc)
  authorize_entry-true false none check = (λ h. cc, λ (r, p, e, c). cc)
  authorize_entry-true false (some p) check = (λ h. (refl, p, refl, h), λ (r, q, e, c). cc)

  pub authorize_tool-IsAllowed : ((authorize_tool w user tool ns flag args t).0 ≡ true) ↔ IsAllowed
  unfolding authorize_tool
  authorize_tool-IsAllowed =
      let entry =
        authorize_entry-true (is_destructive tool && not flag) (lookup tool tool_permissions)
          (λ p. check_access w user tool ns (refine_permission tool args p)) in
      (
        λ h.
            let (confirmed, p, listed, c) = entry.0 h in
            record {
              permission = p;
              listed = listed;
              confirmed = λ d. ground arith;
              access = (check_access-true p).0 c;
            },
        λ a. entry.1 (
          both (is_destructive tool) flag a.confirmed,
          a.permission,
          a.listed,
          (check_access-true a.permission).1 a.access,
        ),
      )
