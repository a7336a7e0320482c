-- ===== src/Effects/Ends.antt =====
-- What holds after an action, of its answer and the trace, one rule for each way to build it.
use backrest_operator.Prelude.{◌≡◌, refl, Bool, true, false, Option, none, some, if◌then◌else◌}
use backrest_operator.Effects.{Result, ok, err, Error, Trace, M, pure, ◌>>=◌, on_result, on_option}
use backrest_operator.Effects.Keeps.{Keeps}

pub record Ends {A : Type 0} (H : Trace → Type 0) (m : M A) (Q : A → Trace → Type 0) : Type 0 where
  pub at : (t : Trace) → H t → Q (m t).0 (m t).1

pub Ends-pure :
    {H : Trace → Type 0} {A : Type 0} {Q : A → Trace → Type 0} (a : A)
    → ((t : Trace) → H t → Q a t)
    → Ends H (pure a) Q
Ends-pure a h = record { at = h }

pub Ends-bind :
    {H : Trace → Type 0} {A B : Type 0} {P : A → Trace → Type 0} {Q : B → Trace → Type 0} (m : M A)
    (f : A → M B)
    → Ends H m P
    → ((a : A) → Ends (P a) (f a) Q)
    → Ends H (m >>= f) Q
Ends-bind m f em ef = record { at = λ t h. (ef (m t).0).at (m t).1 (em.at t h) }

-- after an action that only keeps what holds
pub Ends-after :
    {H : Trace → Type 0} {A B : Type 0} {Q : B → Trace → Type 0} (m : M A) (f : A → M B)
    → Keeps H m
    → ((a : A) → Ends H (f a) Q)
    → Ends H (m >>= f) Q
Ends-after m f km ef = record { at = λ t h. (ef (m t).0).at (m t).1 (km.at t h) }

pub Ends-if :
    {H : Trace → Type 0} {A : Type 0} {Q : A → Trace → Type 0} (b : Bool) (m n : M A)
    → (b ≡ true → Ends H m Q)
    → (b ≡ false → Ends H n Q)
    → Ends H (if b then m else n) Q
Ends-if true m n em en = em refl
Ends-if false m n em en = en refl

pub Ends-on_option :
    {H : Trace → Type 0} {A B : Type 0} {Q : B → Trace → Type 0} (o : Option A) (f : A → M B)
    (m : M B)
    → ((a : A) → o ≡ some a → Ends H (f a) Q)
    → (o ≡ none → Ends H m Q)
    → Ends H (on_option o f m) Q
Ends-on_option none f m ef em = em refl
Ends-on_option (some a) f m ef em = ef a refl

pub Ends-on_result :
    {H : Trace → Type 0} {A B : Type 0} {Q : B → Trace → Type 0} (r : Result A) (f : Error → M B)
    (g : A → M B)
    → ((e : Error) → Ends H (f e) Q)
    → ((a : A) → Ends H (g a) Q)
    → Ends H (on_result r f g) Q
Ends-on_result (err e) f g ef eg = ef e
Ends-on_result (ok a) f g ef eg = eg a

-- where what holds before depends on the answer
pub Ends-on_answer :
    {A B : Type 0} {Q : B → Trace → Type 0} (H : Result A → Trace → Type 0) (r : Result A)
    (f : Error → M B) (g : A → M B)
    → ((e : Error) → Ends (H (err e)) (f e) Q)
    → ((a : A) → Ends (H (ok a)) (g a) Q)
    → Ends (H r) (on_result r f g) Q
Ends-on_answer H (err e) f g ef eg = ef e
Ends-on_answer H (ok a) f g ef eg = eg a

pub Ends-from :
    {H K : Trace → Type 0} {A : Type 0} {Q : A → Trace → Type 0} {m : M A}
    → ((t : Trace) → K t → H t)
    → Ends H m Q
    → Ends K m Q
Ends-from weaker e = record { at = λ t k. e.at t (weaker t k) }

-- an error is not none
pub some-none {ℓ} : {A : Type 0} {C : Type ℓ} {a : A} → some a ≡ none → C
some-none z = absurd cc
