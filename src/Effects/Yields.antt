-- ===== src/Effects/Yields.antt =====
-- What an action that succeeds has done, one rule for each way to build it.
use backrest_operator.Prelude.{
  ◌≡◌, refl, subst, ◌∷◌, Bool, true, false, Option, none, some, if◌then◌else◌,
}
use backrest_operator.Effects.{
  Env, Result, ok, err, Error, Event, Trace, M, pure, ◌>>=◌, on_result, on_option,
}
use backrest_operator.Effects.Keeps.{Kind, Ignores}

-- `s` is an earlier state of the trace `t`
pub data Before (s : Trace) : Trace → Type 0 where
  here : Before s s
  later : {e : Event} {t : Trace} → Before s t → Before s (e ∷ t)

pub Before-trans : {s t u : Trace} → Before s t → Before t u → Before s u
Before-trans b Before.here = b
Before-trans b (Before.later c) = Before.later (Before-trans b c)

-- The request was made before `u`, and had no error.
abbrev pub Done : Env → Event → Trace → Type 0
Done env e u = (v : Trace) × Before (e ∷ v) u × (env.done (e ∷ v) ≡ none)

pub Before-Ignores : (s : Trace) (k : Kind) → Ignores (Before s) k
Before-Ignores s k e t h b = Before.later b

-- Where `m` answers with a value after a trace of `H`, the value and the trace are in `P`.
pub record Yields {A : Type 0} (H : Trace → Type 0) (m : M (Result A)) (P : Trace → A → Type 0)
    : Type 0 where
  pub at : (t : Trace) → H t → (a : A) → (m t).0 ≡ ok a → P (m t).1 a

pub ok-injective : {A : Type 0} {a b : A} → ok a ≡ ok b → a ≡ b
ok-injective e = cc

module _ {H : Trace → Type 0} where
  pub Yields-err : {A : Type 0} {P : Trace → A → Type 0} (e : Error) → Yields H (pure (err e)) P
  Yields-err e = record { at = λ t h a q. absurd cc }

  pub Yields-if :
      {A : Type 0} {P : Trace → A → Type 0} (b : Bool) (m n : M (Result A))
      → (b ≡ true → Yields H m P)
      → (b ≡ false → Yields H n P)
      → Yields H (if b then m else n) P
  Yields-if true m n ym yn = ym refl
  Yields-if false m n ym yn = yn refl

  pub Yields-on_result :
      {A B : Type 0} {P : Trace → B → Type 0} (r : Result A) (f : Error → M (Result B))
      (g : A → M (Result B))
      → ((e : Error) → Yields H (f e) P)
      → ((a : A) → r ≡ ok a → Yields H (g a) P)
      → Yields H (on_result r f g) P
  Yields-on_result (err e) f g yf yg = yf e
  Yields-on_result (ok a) f g yf yg = yg a refl

  pub Yields-on_option :
      {A B : Type 0} {P : Trace → B → Type 0} (o : Option A) (f : A → M (Result B))
      (m : M (Result B))
      → ((a : A) → o ≡ some a → Yields H (f a) P)
      → Yields H m P
      → Yields H (on_option o f m) P
  Yields-on_option none f m yf ym = ym
  Yields-on_option (some a) f m yf ym = yf a refl

  -- a first action, with what holds after it
  pub Yields-bind :
      {A B : Type 0} {P : Trace → B → Type 0} (m : M A) (f : A → M (Result B))
      (Q : A → Trace → Type 0)
      → ((t : Trace) → H t → Q (m t).0 (m t).1)
      → ((a : A) → Yields (Q a) (f a) P)
      → Yields H (m >>= f) P
  Yields-bind m f Q first rest = record {
    at = λ t h a q. (rest (m t).0).at (m t).1 (first t h) a q;
  }

-- a first action that answers with a result, and whose success is known
pub Yields-then :
    {H : Trace → Type 0} {A B : Type 0} {P : Trace → B → Type 0} {Q : Trace → A → Type 0}
    (m : M (Result A)) (f : Error → M (Result B)) (g : A → M (Result B))
    → Yields H m Q
    → ((K : Trace → Type 0) (e : Error) → Yields K (f e) P)
    → ((a : A) → Yields (λ t. Q t a) (g a) P)
    → Yields H (m >>= λ r. on_result r f g) P
Yields-then {P} {Q} m f g ym yf yg =
    Yields-bind m (λ r. on_result r f g) (λ r t. (a : _) → r ≡ ok a → Q t a) (λ t h. ym.at t h)
      (λ r.
        Yields-on_result r f g (λ e. yf _ e)
          (λ a q. record { at = λ t h b z. (yg a).at t (h a q) b z }))

pub Yields-from :
    {H K : Trace → Type 0} {A : Type 0} {P : Trace → A → Type 0} {m : M (Result A)}
    → ((t : Trace) → K t → H t)
    → Yields H m P
    → Yields K m P
Yields-from weaker y = record { at = λ t k a q. y.at t (weaker t k) a q }

pub Yields-pure :
    {H : Trace → Type 0} {A : Type 0} {P : Trace → A → Type 0} (a : A)
    → ((t : Trace) → H t → P t a)
    → Yields H (pure (ok a)) P
Yields-pure {P} a h = record { at = λ t i b q. subst (λ x. P t x) (ok-injective q) (h t i) }

pub Yields-value :
    {H : Trace → Type 0} {A : Type 0} {P : Trace → A → Type 0} (r : Result A)
    → ((t : Trace) (a : A) → H t → r ≡ ok a → P t a)
    → Yields H (pure r) P
Yields-value r h = record { at = λ t i a q. h t a i q }

pub Yields-to :
    {H : Trace → Type 0} {A : Type 0} {P Q : Trace → A → Type 0} {m : M (Result A)}
    → ((t : Trace) (a : A) → P t a → Q t a)
    → Yields H m P
    → Yields H m Q
Yields-to {m} weaker y = record { at = λ t h a q. weaker (m t).1 a (y.at t h a q) }
