-- ===== src/Tests/Links.antt =====
-- The theorems on operations and links of a host, at a host with one snapshot.
use backrest_operator.Prelude.{
  ◌+◌, ◌≡◌, refl, Bytes, bytes, Option, none, some, [], ◌∷◌, ◌==◌, arith,
}
use backrest_operator.Prelude.Int.{ℤ, pos, eq_int}
use backrest_operator.Effects.{Result, ok, Event, Trace, ask}
use backrest_operator.Backup.Schedule.{second}
use backrest_operator.Examples.Restores.{passed, passed-IsClock}
use backrest_operator.Mcp.Calls.{Json, Mint}
use backrest_operator.Client.Posts.{Object}
use backrest_operator.Client.Operations.{Remote, wait_rounds, wait_fuel}
use backrest_operator.Client.Operations.Fuel.{wait_rounds-fuel}
use backrest_operator.Client.Links.{expiry_from_download_relative_url}
use backrest_operator.Client.Links.Laws.{
  IsSegment, jwt, signed_link, expiry_from_download_relative_url-signed_link,
}
use backrest_operator.Client.Mint.{Minted, mint_download_url}
use backrest_operator.Client.Mint.Earned.{IsEarned, mint_download_url-IsEarned}
use backrest_operator.Client.Mint.Streamed.{IsStreamed, restore_count, mint_download_url-IsStreamed}

-- an operation that indexes a snapshot and has ended well
abbrev operation : Object
operation =
    (bytes "id", Json.text (bytes "7"))
    ∷ (bytes "status", Json.text (bytes "STATUS_SUCCESS"))
    ∷ (bytes "planId", Json.text (bytes "nightly"))
    ∷ (bytes "operationIndexSnapshot", Json.other (bytes "{}"))
    ∷ []

abbrev remote : Remote
remote = record {
  done = λ t. none;
  objects = λ t. ok (operation ∷ []);
  value = λ t. ok (bytes "./download/x");
  clock = passed;
  cancelled = λ t. none;
  parse = λ s. some (pos 7);
  scan = λ s. pos 7;
  duration = λ n. [];
}

abbrev asked : Bytes → Mint
asked mode = record {
  repo = bytes "repo";
  snapshot = bytes "abcdef0123";
  plan = [];
  path = [];
  public_base = bytes "https://backup.example/";
  mode = mode;
  target = [];
}

abbrev decode : Bytes → Option Bytes
decode s = some s

abbrev claim : Bytes → Option ℤ
claim s = some (pos 5)

abbrev minted_in : Bytes → Result Minted × Trace
minted_in mode = mint_download_url remote decode claim (asked mode) []

abbrev link : Bytes → Minted
link mode = record {
  download_url = bytes "https://backup.example/download/x";
  relative_url = bytes "./download/x";
  operation_id = pos 7;
  path = bytes "/";
  expires_at = none;
  mode = mode;
}

mint_download_url-IsEarned_example :
    IsEarned remote decode claim
      (asked (bytes "restore"))
      (minted_in (bytes "restore")).1
      (link (bytes "restore"))
unfolding mint_download_url bytes passed ◌==◌ ask
mint_download_url-IsEarned_example =
    mint_download_url-IsEarned remote decode claim (asked (bytes "restore")) []
      (link (bytes "restore")) refl refl

mint_download_url-IsStreamed_example :
    (restore_count (minted_in (bytes "stream")).1 ≡ restore_count [])
    × ((l : Minted)
        → (minted_in (bytes "stream")).0 ≡ ok l
        → IsStreamed remote decode claim [] (minted_in (bytes "stream")).1 l)
unfolding bytes ◌==◌
mint_download_url-IsStreamed_example =
    mint_download_url-IsStreamed remote decode claim (asked (bytes "stream")) [] refl

-- the link is there
streamed : (minted_in (bytes "stream")).0 ≡ ok (link (bytes "stream"))
unfolding mint_download_url bytes ◌==◌ ask
streamed = refl

wait_rounds-fuel_example :
    wait_rounds remote
      (pos 7)
      second
      (passed (Event.read_clock ∷ []) + second)
      9
      (Event.read_clock ∷ [])
    ≡ wait_rounds remote
        (pos 7)
        second
        (passed (Event.read_clock ∷ []) + second)
        (wait_fuel second)
        (Event.read_clock ∷ [])
wait_rounds-fuel_example = wait_rounds-fuel remote (pos 7) passed-IsClock second 9 [] (omega arith)

abbrev segment : Bytes
segment = bytes "eyJhbGc"

segment-IsSegment : IsSegment segment
unfolding bytes
segment-IsSegment = record {
  no_space = (refl, (refl, (refl, (refl, (refl, (refl, (refl, tt)))))));
  no_slash = (refl, (refl, (refl, (refl, (refl, (refl, (refl, tt)))))));
  no_dot = (refl, (refl, (refl, (refl, (refl, (refl, (refl, tt)))))));
}

expiry_from_download_relative_url-signed_link_example :
    expiry_from_download_relative_url decode claim (signed_link (jwt segment segment segment))
    ≡ some (pos 5)
unfolding bytes eq_int
expiry_from_download_relative_url-signed_link_example =
    expiry_from_download_relative_url-signed_link segment segment segment segment-IsSegment
      segment-IsSegment segment-IsSegment decode claim refl
