-- ===== src/Effects/Clock.antt =====
-- The clock that waits are measured with.
use backrest_operator.Prelude.{
  ℕ, ◌≤◌, ◌+◌, ◌≡◌, refl, Bool, true, false, Option, none, some, ◌∷◌, if◌then◌else◌,
}
use backrest_operator.Effects.{Event, Trace, M, Result, ok, err, Error, on_option, on_result}

-- what a reading of the clock gives after `t`
abbrev pub reading_after : (Trace → ℕ) → Trace → ℕ
reading_after clock t = clock (Event.read_clock ∷ t)

-- The clock never goes back, and a sleep moves it by its length at least.
pub record IsClock (clock : Trace → ℕ) : Type 0 where
  pub grows : (e : Event) (t : Trace) → reading_after clock t ≤ reading_after clock (e ∷ t)
  pub sleeps :
      (n : ℕ) (t : Trace) → reading_after clock t + n ≤ reading_after clock (Event.sleep n ∷ t)

-- two branches that agree where they are taken
pub if-cong :
    {A : Type 0} (b : Bool) (m n k : M A) (t : Trace)
    → (b ≡ false → n t ≡ k t)
    → (if b then m else n) t ≡ (if b then m else k) t
if-cong true m n k t h = refl
if-cong false m n k t h = h refl

pub on_option-cong :
    {A B : Type 0} (o : Option A) (f : A → M B) (m n : M B) (t : Trace)
    → m t ≡ n t
    → on_option o f m t ≡ on_option o f n t
on_option-cong none f m n t h = h
on_option-cong (some a) f m n t h = refl

pub on_result-cong :
    {A B : Type 0} (r : Result A) (f : Error → M B) (g k : A → M B) (t : Trace)
    → ((a : A) → g a t ≡ k a t)
    → on_result r f g t ≡ on_result r f k t
on_result-cong (err e) f g k t h = refl
on_result-cong (ok a) f g k t h = h a
