-- ===== src/Network/Codecs/RoundTrip.antt =====
-- What is read of what was written, for src/network/*_protocol.rs.
use pyrsia.Base.{
  ℕ, ◌≤◌, ◌≡◌, ◌≢◌, refl, ap, ◌∙◌, true, some, [], ◌∷◌, ◌++◌, Bytes, length, ltb, ◌==◌,
  if◌then◌else◌, is_utf8, from_utf8, from_utf8-is_utf8, arith,
}
use mathlib.Core.List.{append_assoc}
use pyrsia.Outcome.{ok, err, ◌>>=◌}
use pyrsia.TransparencyLog.Types.{PackageType, docker, maven2}
use pyrsia.TransparencyLog.Database.{bytes_eq}
use pyrsia.Network.Codecs.{
  unexpected_eof, invalid_data, Wire, IsReliable, read_not_empty, write_and_close,
}
use pyrsia.Network.Codecs.Build
use pyrsia.Network.Codecs.BuildStatus
use pyrsia.Network.Codecs.BuildStatus.{Bincode}
use pyrsia.Network.Codecs.IdleMetric
use pyrsia.Network.Codecs.IdleMetric.{PeerMetrics}

module _ (w : Wire) (frame : Bytes → Bytes) (h : IsReliable w frame) where
  pub write_and_close-sent :
      (out bytes : Bytes) → write_and_close w out bytes ≡ ok (out ++ frame bytes)
  unfolding write_and_close
  write_and_close-sent out bytes = ground (arith, h.writes out bytes, h.closes (out ++ frame bytes))

  -- All that can come of one frame
  pub read_not_empty-frame :
      (bytes rest : Bytes) (max : ℕ)
      → read_not_empty w (frame bytes ++ rest) max ≡ (
          if length bytes == 0
          then err unexpected_eof
          else if ltb max (length bytes)
          then err invalid_data
          else ok (bytes, rest))
  unfolding read_not_empty
  read_not_empty-frame [] rest max = ground (arith, h.reads [] rest max)
  read_not_empty-frame (b ∷ bytes) rest max =
      ground (arith, h.reads (b ∷ bytes) rest max, h.refuses (b ∷ bytes) rest max)

  pub read_not_empty-whole :
      (bytes rest : Bytes) (max : ℕ)
      → bytes ≢ []
      → length bytes ≤ max
      → read_not_empty w (frame bytes ++ rest) max ≡ ok (bytes, rest)
  read_not_empty-whole [] rest max some_bytes fits = absurd (some_bytes refl)
  read_not_empty-whole (b ∷ bytes) rest max some_bytes fits =
      read_not_empty-frame (b ∷ bytes) rest max ∙ ground arith

-- A text that is one frame, in the order in which a reader asks
abbrev pub IsFrame : Bytes → Type 0
IsFrame bytes = (bytes ≢ []) × (length bytes ≤ 1_000_000) × (is_utf8 bytes ≡ true)

to_string-IsFrame : (t : PackageType) → IsFrame (Build.to_string t)
unfolding Build.to_string is_utf8
to_string-IsFrame docker = (ground arith, ground arith, refl)
to_string-IsFrame maven2 = (ground arith, ground arith, refl)

pub from_str-to_string : (t : PackageType) → Build.from_str (Build.to_string t) ≡ some t
unfolding Build.to_string Build.from_str bytes_eq
from_str-to_string docker = refl
from_str-to_string maven2 = refl

module _ (w : Wire) (frame : Bytes → Bytes) (reliable : IsReliable w frame) where
  pub read_text :
      (bytes rest : Bytes)
      → IsFrame bytes
      → (read_not_empty w (frame bytes ++ rest) 1_000_000 ≡ ok (bytes, rest))
        × (from_utf8 bytes ≡ some bytes)
  read_text bytes rest (some_bytes, fits, text) = (
    read_not_empty-whole w frame reliable bytes rest 1_000_000 some_bytes fits,
    from_utf8-is_utf8 bytes text,
  )

  read_request-frames :
      (t : PackageType) (id rest : Bytes)
      → IsFrame id
      → Build.read_request w (frame (Build.to_string t) ++ (frame id ++ rest))
        ≡ ok (record { package_type = t; package_specific_id = id }, rest)
  unfolding Build.read_request
  read_request-frames t id rest good = ground (
    arith,
    read_text (Build.to_string t) (frame id ++ rest) (to_string-IsFrame t),
    read_text id rest good,
    from_str-to_string t,
  )

  write_request-sent :
      (request : Build.BuildRequest)
      → Build.write_request w [] request
        ≡ ok (frame (Build.to_string request.package_type) ++ frame request.package_specific_id)
  unfolding Build.write_request
  write_request-sent request = ground (
    arith,
    reliable.writes [] (Build.to_string request.package_type),
    write_and_close-sent w frame reliable (frame (Build.to_string request.package_type))
        request.package_specific_id,
  )

-- A build request comes back from what was written of it, with nothing taken from what follows,
-- when its identifier is UTF-8, has a byte and has at most a million.
pub read_request-write_request :
    (w : Wire) (frame : Bytes → Bytes) (reliable : IsReliable w frame)
    (request : Build.BuildRequest) (rest : Bytes)
    → IsFrame request.package_specific_id
    → (Build.write_request w [] request >>= λ sent. Build.read_request w (sent ++ rest))
      ≡ ok (request, rest)
read_request-write_request w frame reliable request rest good =
    let first = frame (Build.to_string request.package_type) in
    let second = frame request.package_specific_id in
    ap (λ sent. sent >>= λ s. Build.read_request w (s ++ rest))
      (write_request-sent w frame reliable request)
    ∙ ap (Build.read_request w) (append_assoc first second rest)
    ∙ read_request-frames w frame reliable request.package_type request.package_specific_id rest
        good

-- A build status comes back from what was written of it where bincode reads what it wrote and
-- writes it in one to a million bytes.
pub read_response-write_response :
    (bincode : Bincode) (w : Wire) (frame : Bytes → Bytes) (reliable : IsReliable w frame)
    (response : BuildStatus.BuildStatusResponse) (bytes rest : Bytes)
    → bincode.serialize response.status ≡ some bytes
    → bincode.deserialize bytes ≡ some response.status
    → bytes ≢ []
    → length bytes ≤ 1_000_000
    → (BuildStatus.write_response bincode w [] response >>= λ sent.
        BuildStatus.read_response bincode w (sent ++ rest))
      ≡ ok (response, rest)
unfolding BuildStatus.write_response BuildStatus.read_response
read_response-write_response bincode w frame reliable response bytes rest written read_back
      some_bytes fits =
    ground (
      arith,
      reliable.writes [] bytes,
      read_not_empty-whole w frame reliable bytes rest 1_000_000 some_bytes fits,
    )

module _ (w : Wire) (frame : Bytes → Bytes) (reliable : IsReliable w frame) where
  -- Whatever one call of `read` finds behind the prefix of a metric of eight bytes, `m`: the
  -- response is those bytes when there are eight of them, and an error when there are fewer or more.
  pub read_response_found :
      (m : PeerMetrics) (rest found behind : Bytes)
      → length m.idle_metric ≡ 8
      → w.read (m.idle_metric ++ rest) 8 ≡ ok (found, behind)
      → (IdleMetric.write_response w [] (record { metrics = m }) >>= λ sent.
          IdleMetric.read_response w (sent ++ rest))
        ≡ (if length found == 8
            then ok (record { metrics = record { idle_metric = found } }, behind)
            else err invalid_data)
  unfolding IdleMetric.write_response IdleMetric.read_response
  read_response_found m rest found behind eight reading = ground (
    arith,
    write_and_close-sent w frame reliable [] m.idle_metric,
    reliable.prefixes m.idle_metric rest,
  )
