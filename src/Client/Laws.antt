-- ===== src/Client/Laws.antt =====
-- The plans of a host as a map from their ids.
use backrest_operator.Prelude.{
  ◌≡◌, refl, ap, ◌∙◌, Bytes, false, Option, none, some, List, [], ◌∷◌, any, is_empty, ◌==◌, eq_iff,
  Bool-cases, inl, inr, arith, if◌then◌else◌,
}
use backrest_operator.Effects.{ok}
use backrest_operator.Client.Posts.{HostPlan}
use backrest_operator.Client.{
  Config, Host, put_plan, drop_plan, with_schedule, upsert_plan, delete_plan, written, error_of,
}

-- the plan of an id
unfoldable pub find_plan : Bytes → List HostPlan → Option HostPlan
find_plan id [] = none
find_plan id (p ∷ ps) = let rest = find_plan id ps in if p.id == id then some p else rest

find-put :
    (plan : HostPlan) (id : Bytes) (ps : List HostPlan)
    → find_plan id (put_plan plan ps) ≡ (if plan.id == id then some plan else find_plan id ps)
unfolding find_plan put_plan
find-put plan id [] = refl
find-put plan id (p ∷ ps) =
    ground (arith, find-put plan id ps, eq_iff p.id plan.id, eq_iff p.id id, eq_iff plan.id id)

find-drop :
    (gone id : Bytes) (ps : List HostPlan)
    → find_plan id (drop_plan gone ps) ≡ (if gone == id then none else find_plan id ps)
unfolding find_plan drop_plan
find-drop gone id [] = ground arith
find-drop gone id (p ∷ ps) =
    ground (arith, find-drop gone id ps, eq_iff p.id gone, eq_iff p.id id, eq_iff gone id)

-- nothing is found under an id that no plan has
find-absent :
    (gone id : Bytes) (ps : List HostPlan)
    → any (λ p. p.id == gone) ps ≡ false
    → find_plan id ps ≡ (if gone == id then none else find_plan id ps)
unfolding find_plan
find-absent gone id [] h = ground arith
find-absent gone id (p ∷ ps) h =
    ground (arith, find-absent gone id ps, eq_iff p.id gone, eq_iff p.id id, eq_iff gone id)

-- A host that answers with its configuration, and takes the plans that are written. `config_of` is
-- the configuration it has.
pub record IsStore {S : Type 0} (host : Host S) (config_of : S → Config) : Type 0 where
  pub reads : (s : S) → host.get_config s ≡ (ok (config_of s), s)
  pub accepts : (c : Config) (s : S) → (d : Config) × ((host.set_config c s).0 ≡ ok d)
  pub writes : (c : Config) (s : S) → (config_of (host.set_config c s).1).plans ≡ c.plans

module _ {S : Type 0} (host : Host S) (config_of : S → Config)
    (store : IsStore host config_of) where
  -- the host's plans as a map
  abbrev pub plan_at : S → Bytes → Option HostPlan
  plan_at s id = find_plan id (config_of s).plans

  written-plans :
      (c : Config) (s : S)
      → ((written host (host.set_config c s)).0 ≡ none)
        × ((config_of (written host (host.set_config c s)).1).plans ≡ c.plans)
  written-plans c s =
      let (d, accepted) = store.accepts c s in (ap error_of accepted, store.writes c s)

  -- A write of a plan is the insertion into the map of plans: on a host with an instance there is no
  -- error, the plan is found under its id, with a disabled schedule if it has none, and every other
  -- id has the plan that it had.
  pub upsert_plan-inserts :
      (plan : HostPlan) (s : S)
      → is_empty (config_of s).instance_name ≡ false
      → let r = upsert_plan host plan s in
        (r.0 ≡ none)
        × ((id : Bytes)
            → plan_at r.1 id ≡ (if plan.id == id then some (with_schedule plan) else plan_at s id))
  unfolding upsert_plan
  upsert_plan-inserts plan s h =
      let c = config_of s in
      let (fine, plans) =
        written-plans (record c { plans = put_plan (with_schedule plan) c.plans }) s in
      rw (store.reads s, h)
        (fine, λ id. ap (find_plan id) plans ∙ find-put (with_schedule plan) id c.plans)

  -- A delete is the removal from the map of plans: on a host with an instance there is no error,
  -- nothing is found under the id, and every other id has the plan that it had.
  pub delete_plan-removes :
      (gone : Bytes) (s : S)
      → is_empty gone ≡ false
      → is_empty (config_of s).instance_name ≡ false
      → let r = delete_plan host gone s in
        (r.0 ≡ none) × ((id : Bytes) → plan_at r.1 id ≡ (if gone == id then none else plan_at s id))
  unfolding delete_plan
  delete_plan-removes gone s e h =
      let c = config_of s in
      let (fine, plans) = written-plans (record c { plans = drop_plan gone c.plans }) s in
      elim (Bool-cases (any (λ p. p.id == gone) c.plans)) [
        | inl a ↦
            rw (e, store.reads s, h, a)
              (fine, λ id. ap (find_plan id) plans ∙ find-drop gone id c.plans)
        | inr a ↦ rw (e, store.reads s, h, a) (refl, λ id. find-absent gone id c.plans a)
      ]
