-- ===== src/Client/Mint.antt =====
-- internal/backrest/client.go: MintDownloadURL.
pub mod Earned
pub mod Streamed
use backrest_operator.Prelude.{
  ℕ, ◌*◌, ◌/◌, Bytes, bytes, Bool, true, false, ◌||◌, Option, none, some, List, [], ◌∷◌, ◌++◌,
  is_empty, or_text, take, ◌==◌, if◌then◌else◌,
}
use backrest_operator.Prelude.Int.{ℤ, pos, is_positive, eq_int}
use backrest_operator.Prelude.Decimal.{decimal}
use backrest_operator.Effects.{
  Result, ok, err, Error, plain_error, wrap_error, Event, M, pure, ask, ◌>>=◌, on_result,
}
use backrest_operator.Backup.Schedule.{second}
use backrest_operator.Mcp.Calls.{Json, Mint}
use backrest_operator.Client.Posts.{Object}
use backrest_operator.Client.Operations.{
  Remote, restore, wait_operation, get_download_url, get_operations, resolve_plan_id, indexed,
  id_of, with_text,
}
use backrest_operator.Client.Links.{absolute_download_url, expiry_from_download_relative_url}

-- Operation ids and expiries are int64; an expiry is in seconds, and none stands for Go's zero time.
pub record Minted : Type 0 where
  pub download_url : Bytes
  pub relative_url : Bytes
  pub operation_id : ℤ
  pub path : Bytes
  pub expires_at : Option ℤ
  pub mode : Bytes

-- a minting with its default path
abbrev pub with_path : Mint → Mint
with_path m = record m { path = or_text m.path (bytes "/") }

abbrev pub wants_restore : Bytes → Bool
wants_restore mode = is_empty mode || mode == bytes "restore"

module _ (w : Remote) (decode : Bytes → Option Bytes) (claim : Bytes → Option ℤ) where
  unfoldable pub link_to : Mint → ℤ → Bytes → Bytes → Minted
  unfolding absolute_download_url expiry_from_download_relative_url
  link_to m op mode rel = record {
    download_url = absolute_download_url m.public_base rel;
    relative_url = rel;
    operation_id = op;
    path = m.path;
    expires_at = expiry_from_download_relative_url decode claim rel;
    mode = mode;
  }

  -- the link to a path of an operation
  unfoldable pub link_at : Mint → ℤ → Bytes → Bytes → M (Result Minted)
  unfolding get_download_url link_to
  link_at m op path mode = do
    rel ← get_download_url w op path
    on_result rel (λ e. pure (err e)) (λ r. pure (ok (link_to m op mode r)))

  unfoldable pub finish_restore : Mint → ℤ → M (Result Minted)
  unfolding wait_operation link_at
  finish_restore m op = do
    ended ← wait_operation w op (pos (15 * 60 * second))
    on_result ended (λ e. pure (err e)) (λ o. link_at m op (bytes "/") (bytes "restore"))

  unfoldable pub target_or_default : Mint → M Bytes
  unfolding decimal
  target_or_default m =
      if is_empty m.target
      then (do
        now ← ask w.clock Event.read_clock
        pure (bytes "/data/snapdl/" ++ take 8 m.snapshot ++ bytes "-" ++ decimal (now / second)))
      else pure m.target

  unfoldable pub restore_and_link : Mint → Bytes → M (Result Minted)
  unfolding target_or_default restore finish_restore
  restore_and_link m plan = do
    target ← target_or_default m
    started ← restore w (record {
      plan = plan;
      repo = m.repo;
      snapshot = m.snapshot;
      path = m.path;
      target = target;
    })
    on_result started (λ e. pure (err (wrap_error (bytes "backrest Restore: ") e)))
        (λ op. finish_restore m op)

  unfoldable pub plan_for : Mint → M (Result Bytes)
  unfolding resolve_plan_id
  plan_for m = if is_empty m.plan then resolve_plan_id w m.repo m.snapshot else pure (ok m.plan)

  unfoldable pub mint_restore : Mint → M (Result Minted)
  unfolding plan_for restore_and_link
  mint_restore m = do
    plan ← plan_for m
    on_result plan (λ e. pure (err e)) (λ p. restore_and_link m p)

  -- The variable opID after the loop: the first positive id of an indexed operation, or else the id
  -- of the last of them.
  unfoldable pub index_id : ℤ → List Object → ℤ
  index_id op [] = op
  index_id op (o ∷ os) =
      let skipped = index_id op os in
      let later = index_id (id_of w o) os in
      if indexed w o then (if is_positive (id_of w o) then id_of w o else later) else skipped

  unfoldable pub link_to_index : Mint → ℤ → M (Result Minted)
  unfolding eq_int link_at
  link_to_index m op =
      if eq_int op (pos 0)
      then pure (
          err (
            plain_error (
              bytes "no indexed snapshot operation for snapshot_id="
              ++ m.snapshot
              ++ bytes " (run index_repository first)")))
      else link_at m op m.path (bytes "stream")

  unfoldable pub mint_stream : Mint → M (Result Minted)
  unfolding get_operations index_id link_to_index
  mint_stream m = do
    got ←
        get_operations w
          (some (
            with_text (bytes "repoId") m.repo (
              with_text (bytes "planId") m.plan ((bytes "snapshotId", Json.text m.snapshot) ∷ []))))
          20
    on_result got (λ e. pure (err e)) (λ ops. link_to_index m (index_id (pos 0) ops))

  unfoldable pub mint_download_url : Mint → M (Result Minted)
  unfolding mint_restore mint_stream
  mint_download_url m =
      if is_empty m.snapshot
      then pure (err (plain_error (bytes "snapshotID is required")))
      else if wants_restore m.mode
      then mint_restore (with_path m)
      else mint_stream (with_path m)
