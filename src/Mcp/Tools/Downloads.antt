-- ===== src/Mcp/Tools/Downloads.antt =====
-- internal/mcp/tools.go: the tools that give a download of a snapshot.
use backrest_operator.Prelude.{
  ℕ, zero, suc, ◌+◌, ◌*◌, ◌/◌, Bytes, bytes, Bool, ◌&&◌, ◌||◌, not, ◌++◌, Option, none, some, List,
  [], ◌∷◌, map, is_empty, or_text, take, ltb, ◌==◌, if◌then◌else◌,
}
use backrest_operator.Prelude.Int.{pos, negsuc}
use backrest_operator.Prelude.Decimal.{decimal}
use backrest_operator.Effects.{
  Result, ok, err, Error, plain_error, Event, M, pure, ask, ◌>>=◌, on_result, on_option,
}
use backrest_operator.Filters.{trim_space}
use backrest_operator.Backup.Schedule.{second}
use backrest_operator.Mcp.Calls.{UserIdentity, HostCall, Args}
use backrest_operator.Mcp.World.{World, Output, host}
use backrest_operator.Mcp.Tools.Arguments.{str_arg, int_arg}
use backrest_operator.Mcp.Tools.Hosts.{Handler, failed, request, host_client_from_args}

abbrev pub default_public_base : Bytes
default_public_base = bytes "https://backup.prq-infra.net"

unfoldable pub min8 : Bytes → Bytes
min8 s = take 8 s

-- where a restore for a download goes, with the time in it: nowhere for a stream
unfoldable pub download_target : World → Bytes → Bytes → M Bytes
unfolding min8 decimal
download_target w mode snapshot =
    if is_empty mode || mode == bytes "restore"
    then (do
      now ← ask w.clock Event.read_clock
      pure (bytes "/data/snapdl/mcp/" ++ min8 snapshot ++ bytes "/" ++ decimal (now / second)))
    else pure []

-- more rounds than fit in so many seconds
abbrev pub download_fuel : ℕ → ℕ
download_fuel seconds = suc (seconds / 2 + 1)

module _ (w : World) (as_user : Option UserIdentity) (ns : Bytes) (args : Args) where
  abbrev pub public_base : Bytes
  public_base =
      or_text (str_arg args (bytes "public_base_url") [])
        (or_text (trim_space w.public_base_url) default_public_base)

  unfoldable pub get_snapshot_download_url : Handler
  unfolding host_client_from_args download_target
  get_snapshot_download_url =
      let repo = str_arg args (bytes "name") [] in
      let snapshot = str_arg args (bytes "snapshot_id") [] in
      let mode = str_arg args (bytes "mode") (bytes "restore") in
      if is_empty repo || is_empty snapshot
      then failed (plain_error (bytes "name and snapshot_id are required"))
      else (do
        client ← host_client_from_args w as_user ns args repo
        on_result client failed (λ url. do
          target ← download_target w mode snapshot
          got ← host w.link url (
              HostCall.mint_download_url (record {
                repo = repo;
                snapshot = snapshot;
                plan = str_arg args (bytes "plan_id") [];
                path = str_arg args (bytes "path") (bytes "/");
                public_base = public_base;
                mode = mode;
                target = target;
              }))
          on_result got failed (λ l. pure (ok (Output.link repo snapshot l)))))

  abbrev pub status_fields : List Bytes
  status_fields =
      bytes "phase"
      ∷ bytes "downloadURL"
      ∷ bytes "expiresAt"
      ∷ bytes "relativeURL"
      ∷ bytes "operationID"
      ∷ bytes "message"
      ∷ bytes "snapshotID"
      ∷ bytes "path"
      ∷ []

  abbrev pub status_at : Bytes → Bytes → Bytes
  status_at obj field = elim (w.nested (bytes "status" ∷ field ∷ []) obj) [ none ↦ [] | some v ↦ v ]

  abbrev pub meta_at : Bytes → Bytes → Bytes
  meta_at obj field = elim (w.nested (bytes "metadata" ∷ field ∷ []) obj) [ none ↦ [] | some v ↦ v ]

  unfoldable pub get_snapshot_download : Handler
  get_snapshot_download =
      let name = str_arg args (bytes "name") [] in
      if is_empty name then failed (plain_error (bytes "name is required")) else (do
        got ← request w as_user (bytes "get") (bytes "snapshotdownloads") ns name []
        on_result got failed (λ obj. pure (
            ok (
              Output.download (meta_at obj (bytes "name")) (meta_at obj (bytes "namespace"))
                (map (λ f. (f, status_at obj f)) status_fields)))))

  abbrev pub download_spec : Bytes → Bytes → List (List Bytes × Bytes)
  download_spec repo snapshot =
      (bytes "spec" ∷ bytes "repositoryRef" ∷ bytes "name" ∷ [], repo)
      ∷ (
        bytes "spec" ∷ bytes "repositoryRef" ∷ bytes "namespace" ∷ [],
        str_arg args (bytes "repository_namespace") ns,
      )
      ∷ (bytes "spec" ∷ bytes "snapshotID" ∷ [], snapshot)
      ∷ (bytes "spec" ∷ bytes "path" ∷ [], str_arg args (bytes "path") (bytes "/"))
      ∷ (bytes "spec" ∷ bytes "mode" ∷ [], str_arg args (bytes "mode") (bytes "restore"))
      ∷ []

  -- a field that is left out when it is empty
  abbrev pub unless_empty : Bytes → Bytes → List (List Bytes × Bytes)
  unless_empty field value = if is_empty value then [] else (bytes "spec" ∷ field ∷ [], value) ∷ []

  abbrev pub download_meta : List (List Bytes × Bytes)
  download_meta =
      let name = str_arg args (bytes "download_name") [] in
      (bytes "apiVersion" ∷ [], bytes "operator.backrest.io/v1alpha1")
      ∷ (bytes "kind" ∷ [], bytes "SnapshotDownload")
      ∷ (bytes "metadata" ∷ bytes "namespace" ∷ [], ns)
      ∷ (if is_empty name
          then (bytes "metadata" ∷ bytes "generateName" ∷ [], bytes "snapdl-")
          else (bytes "metadata" ∷ bytes "name" ∷ [], name))
      ∷ []

  abbrev pub download_object : Bytes → Bytes → Bytes
  download_object repo snapshot = w.encode_object (
      download_meta
      ++ download_spec repo snapshot
      ++ unless_empty (bytes "planID") (str_arg args (bytes "plan_id") [])
      ++ unless_empty (bytes "publicBaseURL") (str_arg args (bytes "public_base_url") []))

  -- wait_seconds, at least five
  abbrev pub wait_seconds : ℕ
  wait_seconds = elim (int_arg args (bytes "wait_seconds") (pos 300)) [
    | pos n ↦ if ltb n 5 then 5 else n
    | negsuc n ↦ 5
  ]

  abbrev pub created_fields : List Bytes
  created_fields =
      bytes "phase"
      ∷ bytes "downloadURL"
      ∷ bytes "expiresAt"
      ∷ bytes "message"
      ∷ bytes "operationID"
      ∷ []

  -- the answer about an object as it was last read, and an error while it has no URL
  unfoldable pub finish_download : Bytes → Bytes → Bytes → Bytes → Result Output
  finish_download name repo snapshot obj =
      if is_empty (status_at obj (bytes "downloadURL"))
      then err (
          plain_error (
            bytes "SnapshotDownload "
            ++ ns
            ++ bytes "/"
            ++ name
            ++ bytes " created but downloadURL not ready yet (phase="
            ++ status_at obj (bytes "phase")
            ++ bytes "); retry get_snapshot_download"))
      else ok (
          Output.created name ns (map (λ f. (f, status_at obj f)) created_fields)
            (str_arg args (bytes "mode") (bytes "restore")) snapshot repo)

  abbrev pub download_failed : Bytes → Bytes → Error
  download_failed name obj = plain_error (
      bytes "SnapshotDownload "
      ++ ns
      ++ bytes "/"
      ++ name
      ++ bytes " failed: "
      ++ status_at obj (bytes "message"))

  abbrev pub is_ready : Bytes → Bool
  is_ready obj =
      (status_at obj (bytes "phase") == bytes "Ready")
      && not (is_empty (status_at obj (bytes "downloadURL")))

  unfoldable pub pause : Handler → Handler
  pause later = do e ← ask w.cancelled (Event.sleep (2 * second)); on_option e failed later

  -- what a round makes of the object, before or after the deadline
  unfoldable pub download_polled : Bytes → ℕ → (Bytes → Result Output) → Handler → Bytes → Handler
  unfolding pause
  download_polled name deadline finish later obj =
      if is_ready obj
      then pure (finish obj)
      else if status_at obj (bytes "phase") == bytes "Failed"
      then failed (download_failed name obj)
      else (do
        now ← ask w.clock Event.read_clock
        (if ltb deadline now then pure (finish obj) else pause later))

  -- one round of the wait: the object is read, and later rounds come after two seconds
  unfoldable pub download_round : Bytes → ℕ → (Bytes → Result Output) → Handler → Handler
  unfolding download_polled
  download_round name deadline finish later = do
    got ← request w as_user (bytes "get") (bytes "snapshotdownloads") ns name []
    on_result got failed (download_polled name deadline finish later)

  abbrev pub out_of_rounds : Handler
  out_of_rounds = failed (plain_error (bytes "out of rounds"))

  unfoldable pub download_rounds : Bytes → ℕ → (Bytes → Result Output) → ℕ → Handler
  unfolding download_round
  download_rounds name deadline finish zero = out_of_rounds
  download_rounds name deadline finish (suc fuel) =
      download_round name deadline finish (download_rounds name deadline finish fuel)

  -- Rounds are at least two seconds apart, so that there are no more before the deadline.
  unfoldable pub create_snapshot_download : Handler
  unfolding download_rounds finish_download
  create_snapshot_download =
      let repo = str_arg args (bytes "repository_name") (str_arg args (bytes "name") []) in
      let snapshot = str_arg args (bytes "snapshot_id") [] in
      if is_empty repo || is_empty snapshot
      then failed (plain_error (bytes "repository_name and snapshot_id are required"))
      else (do
        made ←
            request w as_user (bytes "create") (bytes "snapshotdownloads") ns []
              (download_object repo snapshot)
        on_result made failed (λ obj. do
          now ← ask w.clock Event.read_clock
          let name = meta_at obj (bytes "name")
          download_rounds name (now + wait_seconds * second) (finish_download name repo snapshot)
              (download_fuel wait_seconds)))
