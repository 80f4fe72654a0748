-- ===== src/Network/Codecs/IdleMetric.antt =====
-- src/network/idle_metric_protocol.rs
use pyrsia.Base.{Bool, Bytes, length, ◌==◌, if◌then◌else◌}
use pyrsia.Outcome.{Outcome, ok, err, ◌>>=◌}
use pyrsia.TransparencyLog.Database.{bytes_eq}
use pyrsia.Network.Codecs.{IoError, invalid_data, Wire, write_and_close}

-- The eight bytes of a float
pub record PeerMetrics : Type 0 where
  pub idle_metric : Bytes

-- `PeerMetrics::eq`
unfoldable pub metrics_eq : PeerMetrics → PeerMetrics → Bool
metrics_eq m other = bytes_eq m.idle_metric other.idle_metric

pub record IdleMetricRequest : Type 0 where

pub record IdleMetricResponse : Type 0 where
  pub metrics : PeerMetrics

-- `read_request`, which reads nothing
unfoldable pub read_request : Wire → Bytes → Outcome IoError (IdleMetricRequest × Bytes)
read_request w io = ok (record {}, io)

-- The second half of `read_response`: one call of `read`, which may find fewer bytes.
abbrev pub read_metrics : Wire → Bytes → Outcome IoError (IdleMetricResponse × Bytes)
read_metrics w io = do
  (buff, rest) ← w.read io 8
  if length buff == 8
      then ok (record { metrics = record { idle_metric = buff } }, rest)
      else err invalid_data

-- `read_response`
unfoldable pub read_response : Wire → Bytes → Outcome IoError (IdleMetricResponse × Bytes)
read_response w io = do
  (size, io1) ← w.read_varint io
  if size == 8 then read_metrics w io1 else err invalid_data

-- `write_request`, which writes nothing
unfoldable pub write_request : Wire → Bytes → IdleMetricRequest → Outcome IoError Bytes
write_request w io request = do _ ← w.close io; ok io

-- `write_response`
unfoldable pub write_response : Wire → Bytes → IdleMetricResponse → Outcome IoError Bytes
write_response w io response = write_and_close w io response.metrics.idle_metric
