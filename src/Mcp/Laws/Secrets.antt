-- ===== src/Mcp/Laws/Secrets.antt =====
-- What get_host_config shows of a host's repositories.
use backrest_operator.Prelude.{
  ◌≡◌, refl, subst, ◌⊎◌, inl, inr, Bytes, bytes, List, [], ◌∷◌, map, All,
}
use backrest_operator.Effects.{Result, ok, err, Trace, pure, on_result}
use backrest_operator.Mcp.Calls.{HostRepo, HostConfig, Args}
use backrest_operator.Mcp.World.{World, Output}
use backrest_operator.Mcp.Tools.Hosts.{
  redacted, redact_repo, redact_config, failed, get_host_config,
}

-- nothing is left of a secret
abbrev pub IsMasked : Bytes → Type 0
IsMasked s = (s ≡ []) ⊎ (s ≡ bytes "***")

-- a repository without its password and the values of its environment
pub record HidesSecrets (r : HostRepo) : Type 0 where
  pub password : IsMasked r.password
  pub env : All IsMasked r.env

redacted-IsMasked : (s : Bytes) → IsMasked (redacted s)
redacted-IsMasked [] = inl refl
redacted-IsMasked (c ∷ s) = inr refl

masked-All : (env : List Bytes) → All IsMasked (map (λ v. bytes "***") env)
masked-All [] = tt
masked-All (v ∷ env) = (inr refl, masked-All env)

redact-HidesSecrets : (rs : List HostRepo) → All HidesSecrets (map redact_repo rs)
redact-HidesSecrets [] = tt
redact-HidesSecrets (r ∷ rs) = (
  record { password = redacted-IsMasked r.password; env = masked-All r.env },
  redact-HidesSecrets rs,
)

shown :
    (got : Result HostConfig) (c : HostConfig) (u : Trace)
    → (on_result got failed (λ c. pure (ok (Output.config (redact_config c)))) u).0
      ≡ ok (Output.config c)
    → All HidesSecrets c.repos
shown (err e) c u h = cc
shown (ok d) c u h =
    let same : redact_config d ≡ c = cc in
    subst (λ x. All HidesSecrets x.repos) same (redact-HidesSecrets d.repos)

-- A configuration that get_host_config gives to a caller has no password and no environment value
-- of any repository left.
pub get_host_config-HidesSecrets :
    (w : World) (args : Args) (c : HostConfig) (t : Trace)
    → (get_host_config w args t).0 ≡ ok (Output.config c)
    → All HidesSecrets c.repos
unfolding get_host_config
get_host_config-HidesSecrets w args c t h = shown _ c _ h
