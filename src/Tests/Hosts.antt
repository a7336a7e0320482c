-- ===== src/Tests/Hosts.antt =====
-- The theorems on a host's configuration, downloads and logged texts, at small ones.
use backrest_operator.Prelude.{
  All, ◌≡◌, refl, Bytes, bytes, Option, none, some, [], ◌∷◌, ◌==◌, if◌then◌else◌,
}
use backrest_operator.Prelude.Int.{pos}
use backrest_operator.Api.{key_of, Phase, SnapshotDownload}
use backrest_operator.Effects.{Event, ok, err, Error, plain_error}
use backrest_operator.Examples.{meta, here, env}
use backrest_operator.Filters.{split}
use backrest_operator.Logging.{redact_path}
use backrest_operator.Logging.Laws.{IsPlain, redact_path-IsPlain}
use backrest_operator.Mcp.Calls.{DownloadLink}
use backrest_operator.Client.Posts.{HostPlan}
use backrest_operator.Client.{Config, Host, upsert_plan, delete_plan, with_schedule}
use backrest_operator.Client.Laws.{IsStore, plan_at, upsert_plan-inserts, delete_plan-removes}
use backrest_operator.Downloads.{Downloads, set_ready, refresh_of, reconcile_download}
use backrest_operator.Downloads.Laws.{IsKept, reconcile_download-IsKept}
use backrest_operator.Filters.{object_allowed}

abbrev memory : Host Config
memory = record {
  get_config = λ s. (ok s, s);
  set_config = λ c s. (ok c, c);
  add_repo = λ r s. (none, record s { repos = r ∷ s.repos });
}

memory-IsStore : IsStore memory (λ s. s)
memory-IsStore = record { reads = λ s. refl; accepts = λ c s. (c, refl); writes = λ c s. refl }

abbrev nightly : HostPlan
nightly = record {
  id = bytes "nightly";
  repo = bytes "repo";
  paths = [];
  excludes = [];
  schedule = none;
  retention = none;
}

abbrev config : Config
config = record { instance_name = bytes "main"; repos = []; plans = nightly ∷ []; rest = [] }

abbrev after_upsert : Option Error × Config
after_upsert = upsert_plan memory nightly config

abbrev after_delete : Option Error × Config
after_delete = delete_plan memory (bytes "nightly") config

upsert_plan-inserts_example :
    (after_upsert.0 ≡ none)
    × ((id : Bytes)
        → plan_at memory (λ s. s) memory-IsStore after_upsert.1 id ≡ (
            if bytes "nightly" == id
            then some (with_schedule nightly)
            else plan_at memory (λ s. s) memory-IsStore config id))
unfolding bytes
upsert_plan-inserts_example = upsert_plan-inserts memory (λ s. s) memory-IsStore nightly config refl

delete_plan-removes_example :
    (after_delete.0 ≡ none)
    × ((id : Bytes)
        → plan_at memory (λ s. s) memory-IsStore after_delete.1 id ≡ (
            if bytes "nightly" == id
            then none
            else plan_at memory (λ s. s) memory-IsStore config id))
unfolding bytes
delete_plan-removes_example =
    delete_plan-removes memory (λ s. s) memory-IsStore (bytes "nightly") config refl refl

abbrev downloads : Downloads
downloads = record {
  env = env;
  download = λ t. err (plain_error []);
  link = λ t. err (plain_error []);
  parse_time = λ s. some 5;
  format_time = λ n. bytes "1970-01-01T00:00:05Z";
  public_base_url = [];
}

abbrev wanted : SnapshotDownload
wanted = record {
  metadata = meta (bytes "wanted");
  spec = record {
    repository_ref = here (bytes "repo");
    snapshot_id = bytes "abc";
    path = [];
    plan_id = [];
    public_base_url = [];
    mode = [];
  };
  status = record {
    phase = Phase.unset;
    download_url = [];
    relative_url = [];
    operation_id = pos 0;
    snapshot_id = [];
    path = [];
    expires_at = [];
    last_refresh = [];
    message = [];
    conditions = [];
  };
}

abbrev link : DownloadLink
link = record {
  download_url = bytes "https://host/x";
  relative_url = bytes "./x";
  operation_id = pos 1;
  path = bytes "/";
  expires = some 5;
  mode = bytes "restore";
}

-- an API server that has the object with its link
abbrev linked : Downloads
linked = record downloads {
  download = λ t. ok (set_ready downloads wanted (refresh_of wanted) link);
}

reconcile_download-IsKept_example :
    IsKept linked
      (set_ready linked wanted (refresh_of wanted) link)
      (some 5)
      (Event.get_download (key_of wanted.metadata) ∷ [])
      (reconcile_download linked (key_of wanted.metadata) [])
unfolding bytes set_ready object_allowed
reconcile_download-IsKept_example =
    reconcile_download-IsKept linked (key_of wanted.metadata) wanted link [] refl (refl, refl) refl
      refl

redact_path-IsPlain_example : All IsPlain (split b'/' (redact_path (bytes "/download/a.b.c/")))
redact_path-IsPlain_example = redact_path-IsPlain (bytes "/download/a.b.c/")
