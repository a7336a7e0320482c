-- ===== src/Client/Operations/Yields.antt =====
-- What an operation that the client answers with is: one that the host listed, with the id asked for.
use backrest_operator.Prelude.{
  ℕ, zero, suc, ◌+◌, ◌≡◌, refl, ap, sym, subst, ◌∙◌, Bool, true, false, Option, none, some, List,
  [], ◌∷◌, ltb, if◌then◌else◌, In,
}
use backrest_operator.Prelude.Int.{ℤ, eq_int, eq_int_iff}
use backrest_operator.Effects.{Result, ok, err, Error, Event, Trace, M, pure, ask}
use backrest_operator.Effects.Yields.{
  Before, Yields, Yields-err, Yields-if, Yields-on_option, Yields-then, Yields-bind, Yields-from,
  Yields-pure, Yields-value, Before-trans, ok-injective,
}
use backrest_operator.Mcp.Calls.{Args}
use backrest_operator.Client.Posts.{Object}
use backrest_operator.Client.Operations.{
  Remote, id_of, with_id, get_operations, scan_operations, get_operation, found_or, has_succeeded,
  has_ended_badly, status_of, pause, wait_polled, wait_round, wait_rounds, wait_operation,
  timeout_or, wait_fuel, still_running,
}

module _ (w : Remote) where
  -- The host listed the operation, after `s` and before `t`.
  abbrev pub Listed : Trace → Trace → Object → Type 0
  Listed s t op =
      (u : Trace) × (ops : List Object) × Before s u
      × Before u t
      × (w.objects u ≡ ok ops)
      × In op ops

  pub Listed-later : {s t : Trace} {op : Object} (e : Event) → Listed s t op → Listed s (e ∷ t) op
  Listed-later e (u, ops, b, c, q, i) = (u, ops, b, Before.later c, q, i)

  pick_lem :
      (b : Bool) (id : ℤ) (o op : Object) (ops : List Object) (rest : Option Object)
      → eq_int (id_of w o) id ≡ b
      → (rest ≡ some op → In op ops × (id_of w op ≡ id))
      → (if b then some o else rest) ≡ some op
      → In op (o ∷ ops) × (id_of w op ≡ id)
  pick_lem true id o op ops rest e later h =
      let same : o ≡ op = cc in
      (
        subst (λ x. In x (o ∷ ops)) same In.head,
        ap (id_of w) (sym same) ∙ (eq_int_iff (id_of w o) id).0 e,
      )
  pick_lem false id o op ops rest e later h = (In.tail (later h).0, (later h).1)

  with_id_lem :
      (id : ℤ) (ops : List Object) (op : Object)
      → with_id w id ops ≡ some op
      → In op ops × (id_of w op ≡ id)
  unfolding with_id
  with_id_lem id [] op h = absurd cc
  with_id_lem id (o ∷ ops) op h =
      pick_lem (eq_int (id_of w o) id) id o op ops (with_id w id ops) refl
        (λ q. with_id_lem id ops op q) h

  found_or_lem :
      (o : Option Object) (e : Error) (op : Object) → found_or w e o ≡ ok op → o ≡ some op
  found_or_lem none e op q = absurd cc
  found_or_lem (some x) e op q = ap some (ok-injective q)

  -- an answer to a question about `id`
  abbrev pub IsOp : Trace → ℤ → Trace → Object → Type 0
  IsOp s id t op = Listed s t op × (id_of w op ≡ id)

  module _ (s : Trace) (id : ℤ) where
    get_operations-Yields :
        (sel : Args) (n : ℕ)
        → Yields
            (Before s)
            (get_operations w sel n)
            (λ t ops. Before s t × ((op : Object) → with_id w id ops ≡ some op → IsOp s id t op))
    unfolding get_operations ask
    get_operations-Yields sel n = record {
      at = λ t b ops q. (
        Before.later b,
        λ op h.
            let (i, same) = with_id_lem id ops op h in
            ((_, ops, Before.later b, Before.here, q, i), same),
      );
    }

    scan_operations-Yields : Yields (Before s) (scan_operations w id) (IsOp s id)
    unfolding scan_operations
    scan_operations-Yields =
        Yields-then (get_operations w none 50) _ _ (get_operations-Yields none 50)
          (λ K e. Yields-err e)
          (λ ops.
            Yields-value (found_or w _ (with_id w id ops))
              (λ t op h q. h.1 op (found_or_lem (with_id w id ops) _ op q)))

    get_operation-Yields : Yields (Before s) (get_operation w id) (IsOp s id)
    unfolding get_operation
    get_operation-Yields =
        Yields-then (get_operations w _ 1) _ _ (get_operations-Yields _ 1) (λ K e. Yields-err e)
          (λ ops.
            Yields-on_option (with_id w id ops) _ _ (λ op q. Yields-pure op (λ t h. h.1 op q))
              (Yields-from (λ t h. h.0) scan_operations-Yields))

    -- an operation that has come to a good end
    abbrev pub HasEnded : Trace → Object → Type 0
    HasEnded t op = IsOp s id t op × (has_succeeded (status_of op) ≡ true)

    pause-Yields :
        (later : M (Result Object))
        → Yields (Before s) later HasEnded
        → Yields (Before s) (pause w later) HasEnded
    unfolding pause ask
    pause-Yields later y =
        Yields-bind (ask w.cancelled (Event.sleep _)) _ (λ a t. Before s t) (λ t b. Before.later b)
          (λ stop. Yields-on_option stop _ later (λ e q. Yields-err e) y)

    polled-Yields :
        (timeout deadline : ℕ) (later : M (Result Object)) (op : Object)
        → Yields (Before s) later HasEnded
        → Yields (λ t. IsOp s id t op) (wait_polled w id timeout deadline later op) HasEnded
    unfolding wait_polled ask
    polled-Yields timeout deadline later op y =
        Yields-if (has_succeeded (status_of op)) _ _ (λ e. Yields-pure op (λ t i. (i, e)))
          (λ _.
            Yields-if (has_ended_badly (status_of op)) _ _ (λ _. Yields-err _)
              (λ _.
                Yields-bind (ask w.clock Event.read_clock) _ (λ a t. Before s t)
                  (λ t i. Before.later (Before-trans i.0.2 i.0.3))
                  (λ now.
                    Yields-if (ltb deadline now) (pure (err (still_running w id timeout op)))
                      (pause w later) (λ _. Yields-err _) (λ _. pause-Yields later y))))

    rounds-Yields :
        (timeout deadline fuel : ℕ)
        → Yields (Before s) (wait_rounds w id timeout deadline fuel) HasEnded
    unfolding wait_rounds wait_round
    rounds-Yields timeout deadline zero = Yields-err _
    rounds-Yields timeout deadline (suc fuel) =
        Yields-then (get_operation w id) _ _ get_operation-Yields (λ K e. Yields-err e)
          (λ op. polled-Yields timeout deadline _ op (rounds-Yields timeout deadline fuel))

    -- The operation that a wait answers with was listed by the host while the wait ran, has the id
    -- that was waited for, and has come to a good end.
    pub wait_operation-Yields : (limit : ℤ) → Yields (Before s) (wait_operation w id limit) HasEnded
    unfolding wait_operation ask
    wait_operation-Yields limit =
        Yields-bind (ask w.clock Event.read_clock) _ (λ a t. Before s t) (λ t b. Before.later b)
          (λ now.
            rounds-Yields (timeout_or limit) (now + timeout_or limit)
              (wait_fuel (timeout_or limit)))
