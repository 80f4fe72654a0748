-- ===== src/Tests/Images.antt =====
-- The theorem on Docker manifests, at a node whose log has one image.
use pyrsia.Base.{◌≡◌, ◌↔◌, refl, [], ◌∷◌, codes}
use pyrsia.Outcome.{ok}
use pyrsia.TransparencyLog.Types.{TransparencyLog, docker}
use pyrsia.TransparencyLog.Database.{bytes_eq, keep, is_plain}
use pyrsia.TransparencyLog.Reading
use pyrsia.BuildService.Names.{contains}
use pyrsia.ArtifactService.Service.{ArtifactService, fetch}
use pyrsia.ArtifactService.Service.Verified.{hash_of}
use pyrsia.Handlers.Docker.{starts_with, manifest_id, manifest_response, fetch_manifest_or_build}
use pyrsia.Handlers.Docker.Served.{fetch_manifest_or_build_verified}
use pyrsia.Tests.Ordering.{database}
use pyrsia.Tests.Logs.{added}
use pyrsia.Tests.Artifacts.{world, node}

abbrev image : TransparencyLog
image = record added { package_specific_artifact_id = codes "library/alpine:1" }

abbrev holder : ArtifactService (Unit {0})
holder = record node { logs = record { table = image ∷ []; submitted = [] } }

is_logged :
    Reading.get_artifact database docker (manifest_id (codes "alpine") (codes "1")) (image ∷ [])
    ≡ ok image
unfolding Reading.get_artifact is_plain keep bytes_eq manifest_id starts_with contains
is_logged = refl

fetch_manifest_or_build_verified_example :
    ((fetch_manifest_or_build world (codes "alpine") (codes "1") holder).0
      ≡ ok (manifest_response (9 ∷ [])))
    ↔ (((fetch world [] holder).0 ≡ ok (9 ∷ [])) × (hash_of world (9 ∷ []) ≡ []))
fetch_manifest_or_build_verified_example =
    fetch_manifest_or_build_verified world (codes "alpine") (codes "1") holder image (9 ∷ [])
      is_logged
