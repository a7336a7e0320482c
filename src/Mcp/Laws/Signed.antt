-- ===== src/Mcp/Laws/Signed.antt =====
-- Who asks, and where: the Kubernetes calls of each tool.
use backrest_operator.Prelude.{ℕ, zero, suc, ◌≡◌, refl, Bytes, bytes, Option, ◌∷◌}
use backrest_operator.Effects.{Result, ok, err, Event, Trace, ask}
use backrest_operator.Effects.Keeps.{
  Keeps, Keeps-pure, Keeps-bind, Keeps-if, Keeps-on_option, Keeps-on_result,
}
use backrest_operator.Mcp.Calls.{UserIdentity, ApiCall, HostCall, Call, Json, Args}
use backrest_operator.Mcp.World.{World, Output, api, host}
use backrest_operator.Mcp.Tools.Arguments.{arg_at}
use backrest_operator.Mcp.Tools.Hosts.{
  Handler, answer_object, request, host_client_from_args, list_snapshots, index_repository,
  get_host_config,
}
use backrest_operator.Mcp.Tools.Downloads.{
  download_target, get_snapshot_download_url, get_snapshot_download, pause, download_polled,
  download_round, download_rounds, create_snapshot_download,
}
use backrest_operator.Mcp.Tools.{
  reading, making, making_from, deleting, force_token, force_run, trigger_backup, repo_status,
}

-- The traces that follow `t` and in which every Kubernetes call after it impersonates `who` and is
-- in the namespace `ns`.
pub data Signed (who : Option UserIdentity) (ns : Bytes) (t : Trace) : Trace → Type 0 where
  start : Signed who ns t t
  signed :
      {c : ApiCall} {u : Trace}
      → c.as_user ≡ who
      → c.namespace ≡ ns
      → Signed who ns t u
      → Signed who ns t (Event.mcp (Call.api c) ∷ u)
  at_host :
      {url : Bytes} {c : HostCall} {u : Trace}
      → Signed who ns t u
      → Signed who ns t (Event.mcp (Call.host url c) ∷ u)
  clock : {u : Trace} → Signed who ns t u → Signed who ns t (Event.read_clock ∷ u)
  sleep : {n : ℕ} {u : Trace} → Signed who ns t u → Signed who ns t (Event.sleep n ∷ u)

module _ (w : World) (who : Option UserIdentity) (ns : Bytes) (t : Trace) where
  abbrev pub I : Trace → Type 0
  I = Signed who ns t

  pub request-Signed :
      (verb resource name object : Bytes) → Keeps I (request w who verb resource ns name object)
  unfolding api ask
  request-Signed verb resource name object = record { at = λ u g. Signed.signed refl refl g }

  pub host-Signed :
      {A : Type 0} (answer : Trace → A) (url : Bytes) (c : HostCall) → Keeps I (host answer url c)
  unfolding host ask
  host-Signed answer url c = record { at = λ u g. Signed.at_host g }

  pub clock-Signed : {A : Type 0} (answer : Trace → A) → Keeps I (ask answer Event.read_clock)
  unfolding ask
  clock-Signed answer = record { at = λ u g. Signed.clock g }

  pub sleep-Signed :
      {A : Type 0} (answer : Trace → A) (n : ℕ) → Keeps I (ask answer (Event.sleep n))
  unfolding ask
  sleep-Signed answer n = record { at = λ u g. Signed.sleep g }

  pub answer_object-Signed : (r : Result Bytes) → Keeps I (answer_object r)
  answer_object-Signed (ok o) = Keeps-pure _
  answer_object-Signed (err e) = Keeps-pure _

  ruleset signed_rules = (
    Keeps-pure, Keeps-bind, Keeps-if, Keeps-on_option, Keeps-on_result, request-Signed, host-Signed,
    clock-Signed, sleep-Signed, answer_object-Signed,
  )

  module _ (args : Args) where
    pub reading-Signed :
        (verb resource what : Bytes) → Keeps I (reading w who ns args verb resource ns what)
    unfolding reading
    reading-Signed verb resource what = search signed_rules depth 9

    pub deleting-Signed : (resource : Bytes) → Keeps I (deleting w who ns args resource)
    unfolding deleting
    deleting-Signed resource = search signed_rules depth 9

    pub force_token-Signed : Keeps I (force_token w who ns args)
    unfolding force_token
    force_token-Signed = search signed_rules depth 9

    pub repo_status-Signed : Keeps I (repo_status w who ns args)
    unfolding repo_status
    repo_status-Signed = search signed_rules depth 9

    pub making_from-Signed :
        (resource kind : Bytes) (body : Json)
        → Keeps I (making_from w who ns args resource kind body)
    unfolding making_from
    making_from-Signed resource kind Json.null = search signed_rules depth 9
    making_from-Signed resource kind (Json.text s) = search signed_rules depth 9
    making_from-Signed resource kind (Json.flag b) = search signed_rules depth 9
    making_from-Signed resource kind (Json.number n) = search signed_rules depth 9
    making_from-Signed resource kind (Json.other s) = search signed_rules depth 9

    pub making-Signed : (resource kind : Bytes) → Keeps I (making w who ns args resource kind)
    unfolding making
    making-Signed resource kind = making_from-Signed resource kind (arg_at args (bytes "body"))

    pub force_run-Signed : Keeps I (force_run w who ns args)
    unfolding force_run
    force_run-Signed = search (signed_rules, force_token-Signed) depth 12

    pub trigger_backup-Signed : Keeps I (trigger_backup w who ns args)
    unfolding trigger_backup
    trigger_backup-Signed = search (signed_rules, making-Signed, force_run-Signed) depth 9

    pub host_client-Signed : (repo : Bytes) → Keeps I (host_client_from_args w who ns args repo)
    unfolding host_client_from_args
    host_client-Signed repo = search signed_rules depth 9

    pub list_snapshots-Signed : Keeps I (list_snapshots w who ns args)
    unfolding list_snapshots
    list_snapshots-Signed = search (signed_rules, host_client-Signed) depth 12

    pub index_repository-Signed : Keeps I (index_repository w who ns args)
    unfolding index_repository
    index_repository-Signed = search (signed_rules, host_client-Signed) depth 12

    pub get_host_config-Signed : Keeps I (get_host_config w args)
    unfolding get_host_config
    get_host_config-Signed = search signed_rules depth 12

    pub download_target-Signed : (mode snapshot : Bytes) → Keeps I (download_target w mode snapshot)
    unfolding download_target
    download_target-Signed mode snapshot = search signed_rules depth 9

    pub get_snapshot_download_url-Signed : Keeps I (get_snapshot_download_url w who ns args)
    unfolding get_snapshot_download_url
    get_snapshot_download_url-Signed =
        search (signed_rules, host_client-Signed, download_target-Signed) depth 12

    pub get_snapshot_download-Signed : Keeps I (get_snapshot_download w who ns args)
    unfolding get_snapshot_download
    get_snapshot_download-Signed = search signed_rules depth 9

    pub pause-Signed : (later : Handler) → Keeps I later → Keeps I (pause w who ns args later)
    unfolding pause
    pause-Signed later k = search signed_rules depth 9

    pub download_round-Signed :
        (name : Bytes) (deadline : ℕ) (finish : Bytes → Result Output) (later : Handler)
        → Keeps I later
        → Keeps I (download_round w who ns args name deadline finish later)
    unfolding download_round download_polled
    download_round-Signed name deadline finish later k =
        search (signed_rules, pause-Signed) depth 12

    pub download_rounds-Signed :
        (name : Bytes) (deadline : ℕ) (finish : Bytes → Result Output) (fuel : ℕ)
        → Keeps I (download_rounds w who ns args name deadline finish fuel)
    unfolding download_rounds
    download_rounds-Signed name deadline finish zero = Keeps-pure _
    download_rounds-Signed name deadline finish (suc fuel) =
        download_round-Signed name deadline finish _
          (download_rounds-Signed name deadline finish fuel)

    pub create_snapshot_download-Signed : Keeps I (create_snapshot_download w who ns args)
    unfolding create_snapshot_download
    create_snapshot_download-Signed = search (signed_rules, download_rounds-Signed) depth 12
