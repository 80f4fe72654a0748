-- ===== src/Network/Codecs/Panics.antt =====
-- The `unwrap`s of src/network/*_protocol.rs on what another node sent.
use pyrsia.Base.{◌≤◌, ◌≡◌, ◌≢◌, false, none, [], ◌++◌, Bytes, length, is_utf8, from_utf8, arith}
use pyrsia.Outcome.{panicked}
use pyrsia.Network.Codecs.{Wire, IsReliable}
use pyrsia.Network.Codecs.Artifact
use pyrsia.Network.Codecs.Build
use pyrsia.Network.Codecs.BuildStatus
use pyrsia.Network.Codecs.RoundTrip.{read_not_empty-whole}

from_utf8-none : (s : Bytes) → is_utf8 s ≡ false → from_utf8 s ≡ none
unfolding from_utf8
from_utf8-none s h = ground arith

module _ (w : Wire) (frame : Bytes → Bytes) (reliable : IsReliable w frame) where
  -- A frame that has a byte and at most a million, and is not UTF-8, panics whoever reads it as a
  -- request for an artifact, for a build or for a build status, or as the answer to a build request.
  pub read_request-panicked :
      (bytes rest : Bytes)
      → bytes ≢ []
      → length bytes ≤ 1_000_000
      → is_utf8 bytes ≡ false
      → (Artifact.read_request w (frame bytes ++ rest) ≡ panicked)
        × (Build.read_request w (frame bytes ++ rest) ≡ panicked)
        × (Build.read_response w (frame bytes ++ rest) ≡ panicked)
        × (BuildStatus.read_request w (frame bytes ++ rest) ≡ panicked)
  unfolding Artifact.read_request Build.read_request Build.read_response BuildStatus.read_request
  read_request-panicked bytes rest some_bytes fits text =
      let whole = read_not_empty-whole w frame reliable bytes rest 1_000_000 some_bytes fits in
      ground (arith, whole, from_utf8-none bytes text)

  -- So does, as a build request, any such frame that names no package type.
  pub read_request_unknown :
      (bytes rest : Bytes)
      → bytes ≢ []
      → length bytes ≤ 1_000_000
      → Build.from_str bytes ≡ none
      → Build.read_request w (frame bytes ++ rest) ≡ panicked
  unfolding Build.read_request from_utf8
  read_request_unknown bytes rest some_bytes fits unknown =
      ground (arith, read_not_empty-whole w frame reliable bytes rest 1_000_000 some_bytes fits)
