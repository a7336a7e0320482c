-- ===== src/Cluster/Image.antt =====
-- internal/controller/cluster_controller.go: imageFor.
pub mod Laws
use backrest_operator.Prelude.{
  ℕ, Bytes, bytes, Bool, true, false, List, [], ◌∷◌, ◌++◌, or_text, eq_num, if◌then◌else◌,
}
use backrest_operator.Cluster.Objects.{ClusterSpec}

-- the bytes from the last one to the first
unfoldable pub backwards : Bytes → Bytes
backwards [] = []
backwards (c ∷ s) = backwards s ++ c ∷ []

-- the loop: a colon is met before a slash
unfoldable pub has_tag_from : Bytes → Bool
has_tag_from [] = false
has_tag_from (c ∷ s) =
    let rest = has_tag_from s in
    if eq_num c b'/' then false else (if eq_num c b':' then true else rest)

abbrev pub tagged : Bytes → Bytes → Bytes
tagged img version = if has_tag_from (backwards img) then img else img ++ (b':' ∷ version)

unfoldable pub image_for : ClusterSpec → Bytes
unfolding backwards has_tag_from
image_for spec =
    tagged (or_text spec.image (bytes "ghcr.io/garethgeorge/backrest"))
      (or_text spec.version (bytes "v1.14.1"))
