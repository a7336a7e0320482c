-- ===== src/Downloads.antt =====
-- internal/controller/snapshotdownload_controller.go: the SnapshotDownload controller.
pub mod Laws
use backrest_operator.Prelude.{
  ℕ, ◌+◌, ◌-◌, ◌*◌, ◌/◌, Bytes, bytes, Bool, true, false, Option, none, some, List, [], ◌∷◌, ◌++◌,
  ◌&&◌, not, is_empty, or_text, ◌==◌, ltb, if◌then◌else◌,
}
use backrest_operator.Prelude.Dict.{text_at}
use backrest_operator.Prelude.Decimal.{decimal}
use backrest_operator.Api.{Phase, Key, Condition, BackupRepository, SnapshotDownload, ref_key}
use backrest_operator.Filters.{object_allowed}
use backrest_operator.Effects.{
  Env, Result, ok, err, Error, plain_error, Event, Metric, Trace, M, pure, ask, tell, ◌>>=◌, ◌>>◌,
  on_result, on_option, is_not_found, Outcome,
}
use backrest_operator.Backup.Schedule.{second}
use backrest_operator.Backup.Poll.{finished, come_back, stopped}
use backrest_operator.Backup.Quiesce.Wait.{ignore_not_found}
use backrest_operator.Backup.Host.{resolve_cluster_ref, host_url}
use backrest_operator.Mcp.Calls.{Call, HostCall, Mint, DownloadLink}

unfoldable pub refresh_key : Bytes
refresh_key = bytes "operator.backrest.io/refresh"

-- two minutes before a link expires
abbrev pub margin : ℕ
margin = 120 * second

-- What answers this controller beside the environment: the API server on SnapshotDownloads, the
-- host's MintDownloadURL, RFC 3339 of the package time, and an environment variable.
pub record Downloads : Type 0 where
  pub env : Env
  pub download : Trace → Result SnapshotDownload
  pub link : Trace → Result DownloadLink
  pub parse_time : Bytes → Option ℕ
  pub format_time : ℕ → Bytes
  pub public_base_url : Bytes

-- What is to be done about the link that an object has: make one, nothing, or nothing before a time.
pub data Link : Type 0 where
  stale lasting : Link
  until : ℕ → Link

abbrev pub is_ready : Phase → Bool
is_ready Phase.ready = true
is_ready _ = false

abbrev pub refresh_of : SnapshotDownload → Bytes
refresh_of d = text_at refresh_key d.metadata.annotations

-- a link that was asked for and made
abbrev pub has_link : SnapshotDownload → Bool
has_link d =
    is_ready d.status.phase
    && not (is_empty d.status.download_url)
    && (refresh_of d == d.status.last_refresh)

module _ (w : Downloads) where
  abbrev pub parsed : Option ℕ → Link
  parsed none = Link.stale
  parsed (some t) = Link.until t

  unfoldable pub link_of : SnapshotDownload → Link
  link_of d =
      if has_link d
      then (if is_empty d.status.expires_at
          then Link.lasting
          else parsed (w.parse_time d.status.expires_at))
      else Link.stale

  abbrev pub public_base : SnapshotDownload → Bytes
  public_base d =
      or_text d.spec.public_base_url
        (or_text w.public_base_url (bytes "https://backup.prq-infra.net"))

  -- where a restore for a download goes: nowhere for a stream
  unfoldable pub restore_target : SnapshotDownload → Bytes → M Bytes
  unfolding decimal
  restore_target d mode =
      if mode == bytes "restore"
      then (do
        now ← ask w.env.clock Event.read_clock
        pure (
            bytes "/data/snapdl/"
            ++ d.metadata.namespace
            ++ bytes "/"
            ++ d.metadata.name
            ++ bytes "/"
            ++ decimal (now / second)))
      else pure []

  unfoldable pub mint_from : SnapshotDownload → BackupRepository → M (Result DownloadLink)
  unfolding restore_target
  mint_from d repo = do
    let mode = or_text d.spec.mode (bytes "restore")
    target ← restore_target d mode
    ask w.link (
        Event.mcp (
          Call.host (host_url (resolve_cluster_ref repo.spec.cluster_ref repo.metadata.namespace)) (
            HostCall.mint_download_url (record {
              repo = repo.metadata.name;
              snapshot = d.spec.snapshot_id;
              plan = d.spec.plan_id;
              path = or_text d.spec.path (bytes "/");
              public_base = public_base d;
              mode = mode;
              target = target;
            }))))

  abbrev pub missing_repository : Key → Error → Error
  missing_repository k e =
      if is_not_found e
      then plain_error
          (bytes "BackupRepository " ++ k.namespace ++ bytes "/" ++ k.name ++ bytes " not found")
      else e

  unfoldable pub mint : SnapshotDownload → M (Result DownloadLink)
  unfolding mint_from
  mint d = do
    let key = ref_key d.spec.repository_ref d.metadata.namespace
    got ← ask w.env.repository (Event.get_repository key)
    on_result got (λ e. pure (err (missing_repository key e))) (λ repo. mint_from d repo)

  abbrev pub set_pending : SnapshotDownload → SnapshotDownload
  set_pending d = record d {
    status = record (d.status) { phase = Phase.pending; message = bytes "minting download URL" };
  }

  abbrev pub set_failed : SnapshotDownload → Error → SnapshotDownload
  set_failed d e = record d {
    status = record (d.status) {
      phase = Phase.failed;
      message = e.message;
      conditions =
          record { kind = bytes "Ready"; status = bytes "False"; message = e.message } ∷ [];
    };
  }

  abbrev pub expiry_text : Option ℕ → Bytes
  expiry_text none = []
  expiry_text (some t) = w.format_time t

  abbrev pub link_message : Bytes → Bytes
  link_message mode =
      if mode == bytes "restore"
      then bytes "Backrest Restore completed; download URL ready (visible in UI)"
      else bytes "stream URL ready (index snapshot; no Restore op in UI)"

  unfoldable pub set_ready : SnapshotDownload → Bytes → DownloadLink → SnapshotDownload
  set_ready d refresh l = record d {
    status = record (d.status) {
      phase = Phase.ready;
      download_url = l.download_url;
      relative_url = l.relative_url;
      operation_id = l.operation_id;
      snapshot_id = d.spec.snapshot_id;
      path = l.path;
      message = link_message l.mode;
      last_refresh = refresh;
      conditions =
          record { kind = bytes "Ready"; status = bytes "True"; message = bytes "URL ready" } ∷ [];
      expires_at = expiry_text l.expires;
    };
  }

  abbrev pub stored_download : SnapshotDownload → Result SnapshotDownload → SnapshotDownload
  stored_download d (err e) = d
  stored_download d (ok c) = c

  unfoldable pub mint_failed : SnapshotDownload → Error → M Outcome
  mint_failed d e = do
    tell (Event.metric (Metric.reconcile_error (bytes "SnapshotDownload")))
    tell (Event.update_download_status (set_failed d e))
    pure (come_back (30 * second))

  -- at least a minute
  abbrev pub at_least_minute : ℕ → ℕ
  at_least_minute n = if ltb n (60 * second) then 60 * second else n

  unfoldable pub come_back_before : Option ℕ → M Outcome
  come_back_before none = pure finished
  come_back_before (some t) = do
    now ← ask w.env.clock Event.read_clock
    pure (come_back (at_least_minute (t - margin - now)))

  unfoldable pub minted : SnapshotDownload → Bytes → DownloadLink → M Outcome
  unfolding come_back_before set_ready
  minted d refresh l = do
    u ← ask w.download (Event.update_download_status (set_ready d refresh l))
    on_result u (λ e. pure (stopped e)) (λ c. come_back_before l.expires)

  unfoldable pub make_link : SnapshotDownload → M Outcome
  unfolding mint minted mint_failed
  make_link d = do
    u ← ask w.download (Event.update_download_status (set_pending d))
    let kept = stored_download (set_pending d) u
    got ← mint kept
    on_result got (λ e. mint_failed kept e) (λ l. minted kept (refresh_of d) l)

  -- A delay that is negative in Go is 0 here; both mean that the object does not come back.
  unfoldable pub while_fresh : SnapshotDownload → Link → M Outcome
  unfolding make_link
  while_fresh d Link.stale = make_link d
  while_fresh d Link.lasting = pure finished
  while_fresh d (Link.until t) = do
    now ← ask w.env.clock Event.read_clock
    (if ltb (now + margin) t
        then (do later ← ask w.env.clock Event.read_clock; pure (come_back (t - margin - later)))
        else make_link d)

  unfoldable pub reconcile_download : Key → M Outcome
  unfolding while_fresh link_of
  reconcile_download key = do
    got ← ask w.download (Event.get_download key)
    on_result got
        (λ e. pure (record { requeue = false; after = 0; error = ignore_not_found (some e) }))
        (λ d.
          if not (
            object_allowed w.env.watch_namespaces w.env.watch_label_selector d.metadata.namespace
              d.metadata.labels)
          then pure finished
          else while_fresh d (link_of d))
