-- ===== src/Effects/Keeps.antt =====
-- Invariants of traces, one rule for each way to build an action.
use backrest_operator.Prelude.{◌≡◌, ◌∷◌, Bool, true, false, Option, none, some, if◌then◌else◌}
use backrest_operator.Client.Posts.{Post}
use backrest_operator.Effects.{
  Result, ok, err, Error, Event, Trace, M, pure, ask, tell, ◌>>=◌, on_result, on_option,
}

-- What an invariant may look at: the Jobs that are made, the workloads that are scaled or deleted,
-- and the restores that a host is asked for.
pub data Kind : Type 0 where
  makes_job touches_workload starts_restore plain : Kind

abbrev pub kind : Event → Kind
kind (Event.create_job s) = Kind.makes_job
kind (Event.scale w k n) = Kind.touches_workload
kind (Event.delete_pod k) = Kind.touches_workload
kind (Event.post (Post.restore r)) = Kind.starts_restore
kind _ = Kind.plain

-- requests of one kind keep `I`
abbrev pub Ignores : (Trace → Type 0) → Kind → Type 0
Ignores I k = (e : Event) (t : Trace) → kind e ≡ k → I t → I (e ∷ t)

-- `m` keeps `I`, whatever the answers
pub record Keeps {A : Type 0} (I : Trace → Type 0) (m : M A) : Type 0 where
  pub at : (t : Trace) → I t → I (m t).1

module _ {I : Trace → Type 0} where
  pub Keeps-pure : {A : Type 0} (a : A) → Keeps I (pure a)
  Keeps-pure a = record { at = λ t h. h }

  pub Keeps-bind :
      {A B : Type 0} (m : M A) (f : A → M B)
      → Keeps I m
      → ((a : A) → Keeps I (f a))
      → Keeps I (m >>= f)
  Keeps-bind m f km kf = record { at = λ t h. (kf (m t).0).at (m t).1 (km.at t h) }

  pub Keeps-if :
      {A : Type 0} (b : Bool) (m n : M A) → Keeps I m → Keeps I n → Keeps I (if b then m else n)
  Keeps-if true m n km kn = km
  Keeps-if false m n km kn = kn

  pub Keeps-on_option :
      {A B : Type 0} (o : Option A) (f : A → M B) (m : M B)
      → ((a : A) → Keeps I (f a))
      → Keeps I m
      → Keeps I (on_option o f m)
  Keeps-on_option (some a) f m kf km = kf a
  Keeps-on_option none f m kf km = km

  pub Keeps-on_result :
      {A B : Type 0} (r : Result A) (f : Error → M B) (g : A → M B)
      → ((e : Error) → Keeps I (f e))
      → ((a : A) → Keeps I (g a))
      → Keeps I (on_result r f g)
  Keeps-on_result (err e) f g kf kg = kf e
  Keeps-on_result (ok a) f g kf kg = kg a

  -- the kind first, so that it is known when the rest is looked for
  pub Keeps-ask :
      {A : Type 0} {k : Kind} (answer : Trace → A) (e : Event)
      → kind e ≡ k
      → Ignores I k
      → Keeps I (ask answer e)
  unfolding ask
  Keeps-ask answer e h ignores = record { at = λ t i. ignores e t h i }

  pub Keeps-tell : {k : Kind} (e : Event) → kind e ≡ k → Ignores I k → Keeps I (tell e)
  unfolding tell
  Keeps-tell e h ignores = record { at = λ t i. ignores e t h i }

pub ruleset keeps_rules =
    (Keeps-pure, Keeps-bind, Keeps-if, Keeps-on_option, Keeps-on_result, Keeps-ask, Keeps-tell)
