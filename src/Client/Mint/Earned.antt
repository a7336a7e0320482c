-- ===== src/Client/Mint/Earned.antt =====
-- What a link that MintDownloadURL answers with stands for.
use backrest_operator.Prelude.{
  ◌≡◌, refl, ◌*◌, sym, ap, ◌∙◌, subst, Bytes, bytes, Bool, true, false, Option, none, some, [], ◌∷◌,
  is_empty, or_text, if◌then◌else◌,
}
use backrest_operator.Prelude.Int.{ℤ, pos, eq_int}
use backrest_operator.Effects.{ok, err, Error, wrap_error, Event, Trace, pure, ask}
use backrest_operator.Effects.Yields.{
  Before, Yields, Yields-err, Yields-if, Yields-then, Yields-bind, Yields-pure, Yields-value,
  Yields-to, ok-injective,
}
use backrest_operator.Backup.Schedule.{second}
use backrest_operator.Mcp.Calls.{Mint}
use backrest_operator.Client.Posts.{Post, Object, RestoreRequest}
use backrest_operator.Client.Operations.{
  Remote, id_of, has_succeeded, status_of, restore, restore_id, wait_operation, get_download_url,
}
use backrest_operator.Client.Operations.Yields.{
  Listed, Listed-later, HasEnded, wait_operation-Yields,
}
use backrest_operator.Client.Mint.{
  Minted, with_path, wants_restore, link_to, link_at, finish_restore, restore_and_link,
  mint_restore, plan_for, target_or_default, mint_download_url,
}

module _ (w : Remote) (decode : Bytes → Option Bytes) (claim : Bytes → Option ℤ) where
  -- `s` ends in a Restore of what `m` asks for, and the host answers it with the operation `id`.
  abbrev pub Started : Mint → ℤ → Trace → Type 0
  Started m id s =
      (u : Trace) × (r : RestoreRequest) × (v : Bytes) × (s ≡ Event.post (Post.restore r) ∷ u)
      × (r.repo ≡ m.repo)
      × (r.snapshot ≡ m.snapshot)
      × (r.path ≡ or_text m.path (bytes "/"))
      × (w.value s ≡ ok v)
      × (w.parse v ≡ some id)

  -- The operation that the link names was started for it, and was then listed with a good end.
  abbrev pub IsEarned : Mint → Trace → Minted → Type 0
  IsEarned m t link =
      (s : Trace) × (op : Object) × Started m link.operation_id s
      × Listed w s t op
      × (id_of w op ≡ link.operation_id)
      × (has_succeeded (status_of op) ≡ true)

  if_ok_lem : (b : Bool) (e : Error) (x id : ℤ) → (if b then err e else ok x) ≡ ok id → x ≡ id
  if_ok_lem true e x id q = absurd cc
  if_ok_lem false e x id q = ok-injective q

  restore_id_lem : (o : Option ℤ) (id : ℤ) → restore_id w o ≡ ok id → o ≡ some id
  restore_id_lem none id q = absurd cc
  restore_id_lem (some x) id q = ap some (if_ok_lem (eq_int x (pos 0)) _ x id q)

  or_text-or_text : (a b : Bytes) → or_text (or_text a b) b ≡ or_text a b
  or_text-or_text [] [] = refl
  or_text-or_text [] (x ∷ b) = refl
  or_text-or_text (x ∷ a) b = refl

  -- a Restore of `r`, and the answer to it
  abbrev Asked : RestoreRequest → Trace → Bytes → Type 0
  Asked r t v =
      (u : Trace) × (t
        ≡ Event.post (Post.restore (record r { path = or_text r.path (bytes "/") })) ∷ u)
      × (w.value t ≡ ok v)

  restore-Yields :
      (m : Mint) (r : RestoreRequest) (H : Trace → Type 0)
      → r.repo ≡ m.repo
      → r.snapshot ≡ m.snapshot
      → r.path ≡ or_text m.path (bytes "/")
      → Yields H (restore w r) (λ t id. Started m id t)
  unfolding restore ask
  restore-Yields m r H same_repo same_snapshot same_path =
      Yields-if (is_empty r.target) _ _ (λ _. Yields-err _)
        (λ _.
          Yields-then {Q = Asked r} (ask w.value _) _ _ (record { at = λ t h v q. (t, refl, q) })
            (λ K e. Yields-err e)
            (λ v. Yields-value (restore_id w (w.parse v)) (λ t id a q. (
              a.0,
              _,
              v,
              a.1,
              same_repo,
              same_snapshot,
              ap (λ p. or_text p (bytes "/")) same_path ∙ or_text-or_text m.path (bytes "/"),
              a.2,
              restore_id_lem (w.parse v) id q,
            ))))

  module _ (s : Trace) (id : ℤ) where
    link_at-Yields :
        (m : Mint) (op : Object) (path mode : Bytes)
        → Yields
            (λ t. HasEnded w s id t op)
            (link_at w decode claim m id path mode)
            (λ t link. (link.operation_id ≡ id) × HasEnded w s id t op)
    unfolding link_at link_to get_download_url ask
    link_at-Yields m op path mode =
        Yields-then {Q = λ t r. HasEnded w s id t op} (get_download_url w id path) _ _
          (Yields-then {Q = λ t r. HasEnded w s id t op} (ask w.value _) _ _
            (record { at = λ t h v q. ((Listed-later w _ h.0.0, h.0.1), h.1) })
            (λ K e. Yields-err e) (λ v. Yields-value _ (λ t a h q. h)))
          (λ K e. Yields-err e) (λ r. Yields-pure _ (λ t h. (refl, h)))

    finish_restore-Yields :
        (m : Mint)
        → Yields
            (Before s)
            (finish_restore w decode claim m id)
            (λ t link. (link.operation_id ≡ id) × ((op : Object) × HasEnded w s id t op))
    unfolding finish_restore
    finish_restore-Yields m =
        Yields-then (wait_operation w id (pos (15 * 60 * second))) _ _
          (wait_operation-Yields w s id (pos (15 * 60 * second))) (λ K e. Yields-err e)
          (λ op.
            Yields-to (λ t link h. (h.0, (op, h.1)))
              (link_at-Yields m op (bytes "/") (bytes "restore")))

  finished :
      (m n : Mint) (id : ℤ)
      → Yields (Started m id) (finish_restore w decode claim n id) (IsEarned m)
  finished m n id = record {
    at = λ t h link q.
        let (same, (op, end)) = (finish_restore-Yields t id n).at t Before.here link q in
        (t, op, subst (λ i. Started m i t) (sym same) h, end.0.0, end.0.1 ∙ sym same, end.1);
  }

  abbrev request : Mint → Bytes → Bytes → RestoreRequest
  request m plan target = record {
    plan = plan;
    repo = m.repo;
    snapshot = m.snapshot;
    path = or_text m.path (bytes "/");
    target = target;
  }

  restore_and_link-Yields :
      (m : Mint) (plan : Bytes)
      → Yields (λ _. Unit) (restore_and_link w decode claim (with_path m) plan) (IsEarned m)
  unfolding restore_and_link
  restore_and_link-Yields m plan =
      Yields-bind (target_or_default w decode claim (with_path m)) _ (λ a t. Unit) (λ t h. tt)
        (λ target.
          Yields-then (restore w (request m plan target))
            (λ e. pure (err (wrap_error (bytes "backrest Restore: ") e)))
            (λ op. finish_restore w decode claim (with_path m) op)
            (restore-Yields m (request m plan target) _ refl refl refl) (λ K e. Yields-err _)
            (λ op. finished m (with_path m) op))

  mint_restore-Yields :
      (m : Mint) → Yields (λ _. Unit) (mint_restore w decode claim (with_path m)) (IsEarned m)
  unfolding mint_restore
  mint_restore-Yields m =
      Yields-then {Q = λ _ _. Unit} (plan_for w decode claim (with_path m)) _ _
        (record { at = λ t h a q. tt }) (λ K e. Yields-err e) (λ p. restore_and_link-Yields m p)

  mint_for-Yields :
      (m : Mint)
      → wants_restore m.mode ≡ true
      → Yields (λ _. Unit) (mint_download_url w decode claim m) (IsEarned m)
  unfolding mint_download_url
  mint_for-Yields m h =
      Yields-if (is_empty m.snapshot) _ _ (λ _. Yields-err _)
        (λ _. Yields-if (wants_restore m.mode) _ _ (λ _. mint_restore-Yields m) (λ e. absurd cc))

  -- A link that MintDownloadURL answers with in the mode restore, whatever the host answers, names an
  -- operation that the host gave as its answer to a Restore of the snapshot and the path from the
  -- repository, and that the host listed afterwards as ended with success or with a warning.
  pub mint_download_url-IsEarned :
      (m : Mint) (t : Trace) (link : Minted)
      → wants_restore m.mode ≡ true
      → (mint_download_url w decode claim m t).0 ≡ ok link
      → IsEarned m (mint_download_url w decode claim m t).1 link
  mint_download_url-IsEarned m t link h q = (mint_for-Yields m h).at t tt link q
