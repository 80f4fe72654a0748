-- ===== src/Network/Codecs.antt =====
-- The codecs of the five request-response protocols, src/network/*_protocol.rs: what they share.
-- A stream is the bytes that are still to be read, or that were written so far.
pub mod Artifact
pub mod Build
pub mod BuildStatus
pub mod Blockchain
pub mod IdleMetric
pub mod RoundTrip
pub mod Panics
pub mod Bounds
use pyrsia.Base.{ℕ, ◌≤◌, ◌<◌, ◌≡◌, List, [], ◌∷◌, ◌++◌, Bytes, length}
use pyrsia.Outcome.{Outcome, ok, err, ◌>>=◌}

-- `io::ErrorKind`, as far as the codecs tell it apart
pub data IoError : Type 0 where
  unexpected_eof invalid_data other_error : IoError

-- What the codecs call of libp2p::core::upgrade and of futures::io
pub record Wire : Type 0 where
  pub read_length_prefixed : Bytes → ℕ → Outcome IoError (Bytes × Bytes)
  pub read_varint : Bytes → Outcome IoError (ℕ × Bytes)
  pub read : Bytes → ℕ → Outcome IoError (Bytes × Bytes)
  pub write_length_prefixed : Bytes → Bytes → Outcome IoError Bytes
  pub close : Bytes → Outcome IoError (Unit {0})

-- A transport that fails no write, and whose reads find the prefixed data that was written.
pub record IsReliable (w : Wire) (frame : Bytes → Bytes) : Type 0 where
  pub writes : (out bytes : Bytes) → w.write_length_prefixed out bytes ≡ ok (out ++ frame bytes)
  pub closes : (out : Bytes) → w.close out ≡ ok tt
  pub reads :
      (bytes rest : Bytes) (max : ℕ)
      → length bytes ≤ max
      → w.read_length_prefixed (frame bytes ++ rest) max ≡ ok (bytes, rest)
  pub refuses :
      (bytes rest : Bytes) (max : ℕ)
      → max < length bytes
      → w.read_length_prefixed (frame bytes ++ rest) max ≡ err invalid_data
  pub prefixes :
      (bytes rest : Bytes) → w.read_varint (frame bytes ++ rest) ≡ ok (length bytes, bytes ++ rest)

-- `UnexpectedEof` for data that is empty
abbrev pub not_empty : Bytes × Bytes → Outcome IoError (Bytes × Bytes)
not_empty ([], rest) = err unexpected_eof
not_empty (b ∷ bytes, rest) = ok (b ∷ bytes, rest)

-- The two statements that every read but the idle metric's begins with
unfoldable pub read_not_empty : Wire → Bytes → ℕ → Outcome IoError (Bytes × Bytes)
read_not_empty w io max = w.read_length_prefixed io max >>= not_empty

-- The two statements that a write ends with: the data and, in all but two, the closing.
unfoldable pub write_and_close : Wire → Bytes → Bytes → Outcome IoError Bytes
write_and_close w io bytes = do out ← w.write_length_prefixed io bytes; _ ← w.close out; ok out
