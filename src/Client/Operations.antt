-- ===== src/Client/Operations.antt =====
-- internal/backrest/client.go: snapshots and operations of a host, and the wait for an operation.
pub mod Yields
pub mod Fuel
use backrest_operator.Prelude.{
  ℕ, zero, suc, ◌+◌, ◌*◌, ◌/◌, Bytes, bytes, Bool, true, false, ◌||◌, Option, none, some, List, [],
  ◌∷◌, ◌++◌, is_empty, or_text, any, ltb, ◌==◌, if◌then◌else◌,
}
use backrest_operator.Prelude.Int.{ℤ, pos, negsuc, eq_int}
use backrest_operator.Prelude.Decimal.{decimal_int}
use backrest_operator.Effects.{
  Result, ok, err, Error, plain_error, Event, Trace, M, pure, ask, ◌>>=◌, on_result, on_option,
}
use backrest_operator.Backup.Schedule.{second}
use backrest_operator.Mcp.Calls.{Json, Args}
use backrest_operator.Client.Posts.{
  Post, RestoreRequest, Object, json_at, has_key, text_of, json_number_as_int64,
}

-- What answers the client: the host, the clock, and the context's end during a sleep. `parse` is
-- strconv.ParseInt of a json.Number, `scan` fmt.Sscanf with %d, and `duration` Duration.String.
pub record Remote : Type 0 where
  pub done : Trace → Option Error
  pub objects : Trace → Result (List Object)
  pub value : Trace → Result Bytes
  pub clock : Trace → ℕ
  pub cancelled : Trace → Option Error
  pub parse : Bytes → Option ℤ
  pub scan : Bytes → ℤ
  pub duration : ℕ → Bytes

-- timeout <= 0 means ten minutes
abbrev pub timeout_or : ℤ → ℕ
timeout_or (pos zero) = 10 * 60 * second
timeout_or (pos (suc n)) = suc n
timeout_or (negsuc n) = 10 * 60 * second

abbrev pub has_succeeded : Bytes → Bool
has_succeeded s = s == bytes "STATUS_SUCCESS" || s == bytes "STATUS_WARNING"

abbrev pub has_ended_badly : Bytes → Bool
has_ended_badly s =
    any (λ x. s == x)
      (bytes "STATUS_ERROR" ∷ bytes "STATUS_SYSTEM_CANCELLED" ∷ bytes "STATUS_USER_CANCELLED" ∷ [])

abbrev pub status_of : Object → Bytes
status_of op = text_of (json_at (bytes "status") op)

-- more rounds than fit in the timeout
abbrev pub wait_fuel : ℕ → ℕ
wait_fuel timeout = suc (timeout / (2 * second) + 1)

-- sel["repoId"] = repoID if it is set
abbrev pub with_text : Bytes → Bytes → Object → Object
with_text key value sel = if is_empty value then sel else sel ++ (key, Json.text value) ∷ []

module _ (w : Remote) where
  unfoldable pub index_snapshots : Bytes → M (Option Error)
  index_snapshots repo =
      ask w.done (Event.post (Post.do_repo_task repo (bytes "TASK_INDEX_SNAPSHOTS")))

  unfoldable pub list_snapshots : Bytes → Bytes → M (Result (List Object))
  list_snapshots repo plan = ask w.objects (Event.post (Post.list_snapshots repo plan))

  unfoldable pub get_operations : Args → ℕ → M (Result (List Object))
  get_operations selector last_n = ask w.objects (Event.post (Post.get_operations selector last_n))

  unfoldable pub clear_repo_history : Bytes → M (Option Error)
  clear_repo_history repo = ask w.done (Event.post (Post.clear_history repo false))

  abbrev pub url_of : Bytes → Result Bytes
  url_of [] = err (plain_error (bytes "empty download URL"))
  url_of (c ∷ s) = ok (c ∷ s)

  unfoldable pub get_download_url : ℤ → Bytes → M (Result Bytes)
  get_download_url op path = do
    got ← ask w.value (Event.post (Post.get_download_url op (or_text path (bytes "/"))))
    on_result got (λ e. pure (err e)) (λ v. pure (url_of v))

  abbrev pub restore_id : Option ℤ → Result ℤ
  restore_id none = err (plain_error (bytes "restore returned empty operationId"))
  restore_id (some id) =
      if eq_int id (pos 0)
      then err (plain_error (bytes "restore returned empty operationId"))
      else ok id

  unfoldable pub restore : RestoreRequest → M (Result ℤ)
  unfolding eq_int
  restore r =
      if is_empty r.target
      then pure (err (plain_error (bytes "restore target is required")))
      else (do
        got ←
            ask w.value (Event.post (Post.restore (record r { path = or_text r.path (bytes "/") })))
        on_result got (λ e. pure (err e)) (λ v. pure (restore_id (w.parse v))))

  abbrev pub id_of : Object → ℤ
  id_of op = json_number_as_int64 w.scan (json_at (bytes "id") op)

  unfoldable pub with_id : ℤ → List Object → Option Object
  unfolding eq_int
  with_id id [] = none
  with_id id (op ∷ ops) =
      let rest = with_id id ops in if eq_int (id_of op) id then some op else rest

  abbrev pub found_or : Error → Option Object → Result Object
  found_or e none = err e
  found_or e (some op) = ok op

  -- some hosts ignore the selector, so that the last operations are looked through
  unfoldable pub scan_operations : ℤ → M (Result Object)
  unfolding get_operations with_id decimal_int
  scan_operations id = do
    got ← get_operations none 50
    on_result got (λ e. pure (err e))
        (λ ops. pure (
          found_or (plain_error (bytes "operation " ++ decimal_int id ++ bytes " not found"))
            (with_id id ops)))

  unfoldable pub get_operation : ℤ → M (Result Object)
  unfolding scan_operations
  get_operation id = do
    got ← get_operations (some ((bytes "operationId", Json.number id) ∷ [])) 1
    on_result got (λ e. pure (err e))
        (λ ops. on_option (with_id id ops) (λ op. pure (ok op)) (scan_operations id))

  abbrev pub failure_of : ℤ → Object → Error
  failure_of id op = plain_error (
      bytes "operation "
      ++ decimal_int id
      ++ bytes " failed: "
      ++ or_text (text_of (json_at (bytes "displayMessage") op)) (status_of op))

  abbrev pub still_running : ℤ → ℕ → Object → Error
  still_running id timeout op = plain_error (
      bytes "operation "
      ++ decimal_int id
      ++ bytes " still "
      ++ status_of op
      ++ bytes " after "
      ++ w.duration timeout)

  -- two seconds, or the context's end
  unfoldable pub pause : M (Result Object) → M (Result Object)
  pause later = do
    stop ← ask w.cancelled (Event.sleep (2 * second))
    on_option stop (λ e. pure (err e)) later

  -- An operation that comes beside an error is dropped: the caller does not read it.
  unfoldable pub wait_polled : ℤ → ℕ → ℕ → M (Result Object) → Object → M (Result Object)
  unfolding decimal_int pause
  wait_polled id timeout deadline later op =
      if has_succeeded (status_of op)
      then pure (ok op)
      else if has_ended_badly (status_of op)
      then pure (err (failure_of id op))
      else (do
        now ← ask w.clock Event.read_clock
        (if ltb deadline now then pure (err (still_running id timeout op)) else pause later))

  unfoldable pub wait_round : ℤ → ℕ → ℕ → M (Result Object) → M (Result Object)
  unfolding get_operation wait_polled
  wait_round id timeout deadline later = do
    got ← get_operation id
    on_result got (λ e. pure (err e)) (wait_polled id timeout deadline later)

  -- The loop. Without fuel the answer is an error; `wait_fuel` rounds are enough.
  unfoldable pub wait_rounds : ℤ → ℕ → ℕ → ℕ → M (Result Object)
  unfolding wait_round
  wait_rounds id timeout deadline zero = pure (err (plain_error (bytes "no fuel")))
  wait_rounds id timeout deadline (suc fuel) =
      wait_round id timeout deadline (wait_rounds id timeout deadline fuel)

  unfoldable pub wait_operation : ℤ → ℤ → M (Result Object)
  unfolding wait_rounds
  wait_operation id limit = do
    now ← ask w.clock Event.read_clock
    let timeout = timeout_or limit
    wait_rounds id timeout (now + timeout) (wait_fuel timeout)

  abbrev pub indexed : Object → Bool
  indexed op = has_key (bytes "operationIndexSnapshot") op

  -- the plan of the first indexed operation that has one
  unfoldable pub plan_of_indexed : List Object → Option Bytes
  unfolding json_at has_key
  plan_of_indexed [] = none
  plan_of_indexed (op ∷ ops) =
      let rest = plan_of_indexed ops in
      let plan = text_of (json_at (bytes "planId") op) in
      if indexed op then (if is_empty plan then rest else some plan) else rest

  abbrev pub plan_or : Bytes → Option Bytes → Result Bytes
  plan_or snapshot none = err (
      plain_error (
        bytes "no indexed snapshot with planId for snapshot_id="
        ++ snapshot
        ++ bytes " (run index_repository)"))
  plan_or snapshot (some plan) = ok plan

  unfoldable pub resolve_plan_id : Bytes → Bytes → M (Result Bytes)
  unfolding get_operations plan_of_indexed
  resolve_plan_id repo snapshot = do
    got ←
        get_operations
          (some (with_text (bytes "repoId") repo ((bytes "snapshotId", Json.text snapshot) ∷ [])))
          20
    on_result got (λ e. pure (err e)) (λ ops. pure (plan_or snapshot (plan_of_indexed ops)))
