-- ===== src/Client/Posts.antt =====
-- internal/backrest/client.go: what the client posts to a host about snapshots and operations, and
-- what it reads from the answers.
use backrest_operator.Prelude.{ℕ, Bytes, Bool, true, false, Option, none, some, List, []}
use backrest_operator.Prelude.Int.{ℤ, pos}
use backrest_operator.Prelude.Dict.{lookup}
use backrest_operator.Mcp.Calls.{Json, Args}

-- the body of Restore
pub record RestoreRequest : Type 0 where
  pub plan : Bytes
  pub repo : Bytes
  pub snapshot : Bytes
  pub path : Bytes
  pub target : Bytes

-- A schedule and a retention are kept as their JSON text; a schedule may be nil.
pub record HostPlan : Type 0 where
  pub id : Bytes
  pub repo : Bytes
  pub paths : List Bytes
  pub excludes : List Bytes
  pub schedule : Option Bytes
  pub retention : Option Bytes

-- A selector that is not sent is `none`; `last_n` is not sent when it is 0, and neither is an empty
-- plan.
pub data Post : Type 0 where
  do_repo_task : Bytes → Bytes → Post
  list_snapshots : Bytes → Bytes → Post
  get_operations : Args → ℕ → Post
  get_download_url : ℤ → Bytes → Post
  restore : RestoreRequest → Post
  clear_history : Bytes → Bool → Post

-- map[string]any
abbrev pub Object : Type 0
Object = List (Bytes × Json)

-- op[key], where a missing key reads as nil
unfoldable pub json_at : Bytes → Object → Json
unfolding lookup
json_at key op = elim (lookup key op) [ none ↦ Json.null | some v ↦ v ]

-- _, ok := op[key]
unfoldable pub has_key : Bytes → Object → Bool
unfolding lookup
has_key key op = elim (lookup key op) [ none ↦ false | some v ↦ true ]

-- v, _ := x.(string)
abbrev pub text_of : Json → Bytes
text_of (Json.text s) = s
text_of _ = []

-- jsonNumberAsInt64. A number stands for the int64 of the float64 that is decoded; `scan` is
-- fmt.Sscanf with %d, which leaves 0 where it reads no number.
abbrev pub json_number_as_int64 : (Bytes → ℤ) → Json → ℤ
json_number_as_int64 scan (Json.number n) = n
json_number_as_int64 scan (Json.text s) = scan s
json_number_as_int64 scan _ = pos 0
