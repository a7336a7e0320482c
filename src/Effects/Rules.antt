-- ===== src/Effects/Rules.antt =====
-- Invariants of traces, one rule for each way to build an action.
use backrest_operator.Prelude.{◌≡◌, refl, ap, ◌⊎◌, inl, inr}
use backrest_operator.Effects.{Result, ok, err, Error, Trace, M, ◌>>=◌}

-- To split on an answer and keep the equation.
pub Result-cases {ℓ} :
    {A : Type ℓ} (r : Result A) → ((a : A) × (r ≡ ok a)) ⊎ ((e : Error) × (r ≡ err e))
Result-cases (ok a) = inl (a, refl)
Result-cases (err e) = inr (e, refl)

-- a first action whose end is known
pub bind-eq :
    {A B : Type 0} (m : M A) (f : A → M B) (t : Trace) {p : A × Trace}
    → m t ≡ p
    → (m >>= f) t ≡ f p.0 p.1
bind-eq m f t e = ap (λ q. f q.0 q.1) e
