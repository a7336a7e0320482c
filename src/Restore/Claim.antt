-- ===== src/Restore/Claim.antt =====
-- The claim that a restore makes: restoreFromSnapshot and the new claim of startResticRestore.
use backrest_operator.Prelude.{Bytes, bytes, Option, or_text, if◌then◌else◌}
use backrest_operator.Api.{PvcRestore}
use backrest_operator.Effects.{Env, Error, Event, M, pure, ask, ◌>>=◌}
use backrest_operator.Session.{new_claim}
use backrest_operator.Backup.Jobs.{ignore_already_exists}

abbrev pub new_size : PvcRestore → Bytes
new_size r = or_text r.spec.target.new_size (bytes "10Gi")

-- How making a claim ends: with an error or none, or with a panic of resource.MustParse on a size
-- that is no quantity.
pub data Made : Type 0 where
  done : Option Error → Made
  panicked : Made

-- client.Create of the claim, where one that is there already is no error
unfoldable pub make_claim : Env → PvcRestore → Bytes → M Made
make_claim env r snapshot =
    if env.is_quantity (new_size r)
    then (do
      e ← ask env.done (
          Event.create_claim (record { namespace = r.metadata.namespace; name = new_claim r })
            (new_size r) r.spec.target.new_storage_class_name snapshot)
      pure (Made.done (ignore_already_exists e)))
    else pure Made.panicked

unfoldable pub restore_from_snapshot : Env → PvcRestore → M Made
unfolding make_claim
restore_from_snapshot env r = make_claim env r r.spec.volume_snapshot_ref.name
