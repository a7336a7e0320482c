-- ===== src/Client.antt =====
-- internal/backrest/client.go: in this file the calls that change the configuration of a Backrest host.
-- Each reads the configuration, changes it and writes it back.
pub mod Posts
pub mod Operations
pub mod Links
pub mod Mint
pub mod Laws
use backrest_operator.Prelude.{
  Bytes, bytes, Bool, true, false, not, Option, none, some, List, [], ◌∷◌, any, filter, is_empty,
  or_text, ◌==◌, if◌then◌else◌,
}
use backrest_operator.Effects.{Result, ok, err, Error, plain_error}
use backrest_operator.Mcp.Calls.{HostRepo}
use backrest_operator.Client.Posts.{HostPlan}

-- `rest` is the text of the other fields, which go back as they came.
pub record Config : Type 0 where
  pub instance_name : Bytes
  pub repos : List HostRepo
  pub plans : List HostPlan
  pub rest : Bytes

-- a host: its answers to GetConfig, SetConfig and AddRepo, and what it is after them
pub record Host (S : Type 0) : Type 0 where
  pub get_config : S → Result Config × S
  pub set_config : Config → S → Result Config × S
  pub add_repo : HostRepo → S → Option Error × S

abbrev pub error_of : Result Config → Option Error
error_of (ok c) = none
error_of (err e) = some e

abbrev pub no_instance : Error
no_instance = plain_error (bytes "backrest instance is not set")

-- the first plan of an id gives way, or the plan comes last
unfoldable pub put_plan : HostPlan → List HostPlan → List HostPlan
put_plan plan [] = plan ∷ []
put_plan plan (p ∷ ps) =
    let rest = put_plan plan ps in if p.id == plan.id then plan ∷ ps else p ∷ rest

unfoldable pub drop_plan : Bytes → List HostPlan → List HostPlan
drop_plan id ps = filter (λ p. not (p.id == id)) ps

-- a plan without a schedule is disabled
abbrev pub with_schedule : HostPlan → HostPlan
with_schedule p = record p {
  schedule = some (elim p.schedule [ none ↦ bytes "{\"disabled\":true}" | some s ↦ s ]);
}

-- the repository of an id is replaced, and keeps its guid where the new one has none
unfoldable pub put_repo : HostRepo → List HostRepo → Option (List HostRepo)
put_repo repo [] = none
put_repo repo (r ∷ rs) =
    let rest = put_repo repo rs in
    if r.id == repo.id
    then some (record repo { guid = or_text repo.guid r.guid } ∷ rs)
    else elim rest [ none ↦ none | some us ↦ some (r ∷ us) ]

module _ {S : Type 0} (host : Host S) where
  abbrev pub written : Result Config × S → Option Error × S
  written (r, s) = (error_of r, s)

  -- the change of a configuration that was read
  abbrev pub on_config : Result Config × S → (Config → S → Option Error × S) → Option Error × S
  on_config (err e, s) change = (some e, s)
  on_config (ok c, s) change = change c s

  unfoldable pub ensure_instance : Bytes → S → Option Error × S
  ensure_instance name s =
      if is_empty name
      then (some (plain_error (bytes "instance is required")), s)
      else on_config (host.get_config s) (λ c u.
        if c.instance_name == name
        then (none, u)
        else written (host.set_config (record c { instance_name = name }) u))

  abbrev pub store_repo : HostRepo → Config → S → Option (List HostRepo) → Option Error × S
  store_repo repo c s none = host.add_repo repo s
  store_repo repo c s (some rs) = written (host.set_config (record c { repos = rs }) s)

  unfoldable pub upsert_repo : HostRepo → S → Option Error × S
  unfolding put_repo
  upsert_repo repo s = on_config (host.get_config s) (λ c u.
      if is_empty c.instance_name
      then (some (plain_error (bytes "backrest instance is not set; call EnsureInstance first")), u)
      else store_repo repo c u (put_repo repo c.repos))

  unfoldable pub upsert_plan : HostPlan → S → Option Error × S
  unfolding put_plan
  upsert_plan plan s = on_config (host.get_config s) (λ c u.
      if is_empty c.instance_name
      then (some no_instance, u)
      else written (host.set_config (record c { plans = put_plan (with_schedule plan) c.plans }) u))

  unfoldable pub delete_plan : Bytes → S → Option Error × S
  unfolding drop_plan
  delete_plan id s =
      if is_empty id
      then (none, s)
      else on_config (host.get_config s) (λ c u.
        if is_empty c.instance_name
        then (some no_instance, u)
        else if any (λ p. p.id == id) c.plans
        then written (host.set_config (record c { plans = drop_plan id c.plans }) u)
        else (none, u))
