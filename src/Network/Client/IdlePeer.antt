-- ===== src/Network/Client/IdlePeer.antt =====
-- `get_idle_peer` of src/network/client.rs.
pub mod Sorting
pub mod Choice
use pyrsia.Base.{
  ℕ, Bool, true, false, Option, none, some, List, [], ◌∷◌, ◌++◌, Bytes, if◌then◌else◌,
}
use pyrsia.Outcome.{Outcome, ok, err, panicked, ◌>>=◌}
use pyrsia.Exec.{Exec}
use pyrsia.Network.Types
use pyrsia.Network.Types.{PeerId, Answer, failed}
use pyrsia.Network.Client.{
  CommandSender, ClientError, client_error, queue_closed, sender_dropped, reply,
}

-- How two numbers compare
pub data Order : Type 0 where
  less equal greater : Order

-- `f64` read from eight bytes: whether it is below `PEER_METRIC_THRESHOLD`, and `partial_cmp`, which
-- has no answer when one of the two is not a number.
pub record Floats : Type 0 where
  pub below_threshold : Bytes → Bool
  pub partial_cmp : Bytes → Bytes → Option Order

pub record IdleMetric : Type 0 where
  pub peer : PeerId
  pub metric : Bytes

-- `sort_by` with `partial_cmp(..).unwrap()`: stable, the lowest first
unfoldable pub insert :
    Floats → IdleMetric → List IdleMetric → Outcome ClientError (List IdleMetric)
insert f x [] = ok (x ∷ [])
insert f x (y ∷ ys) = elim (f.partial_cmp x.metric y.metric) [
  | none ↦ panicked
  | some o ↦ elim o [ greater ↦ insert f x ys >>= λ rest. ok (y ∷ rest) | _ ↦ ok (x ∷ y ∷ ys) ]
]

unfoldable pub sort_by_metric : Floats → List IdleMetric → Outcome ClientError (List IdleMetric)
unfolding insert
sort_by_metric f [] = ok []
sort_by_metric f (x ∷ xs) = sort_by_metric f xs >>= λ rest. insert f x rest

-- What comes after the loop
unfoldable pub lowest : Floats → List IdleMetric → Outcome ClientError (Option PeerId)
unfolding sort_by_metric
lowest f idle_metrics = sort_by_metric f idle_metrics >>= λ sorted. elim sorted [
  | [] ↦ ok none
  | idle_metric ∷ _ ↦ ok (some idle_metric.peer)
]

-- The loop, from some peers on. A peer that answers with an error is passed over; a channel that is
-- dropped is a panic.
unfoldable pub ask_peers :
    {S : Type 0}
    → CommandSender S
    → Floats
    → List IdleMetric
    → List PeerId
    → Exec S ClientError (Option PeerId)
unfolding lowest
ask_peers sender f idle_metrics [] s = (lowest f idle_metrics, s)
ask_peers sender f idle_metrics (peer ∷ peers) s =
    let (r, s') = sender.ask (Types.request_idle_metric peer) s in
    elim r [
      | queue_closed ↦ (err client_error, s')
      | sender_dropped ↦ (panicked, s')
      | reply a ↦ elim a [
        | Types.metric metric ↦
            if f.below_threshold metric
            then (ok (some peer), s')
            else ask_peers sender f (idle_metrics ++ record { peer = peer; metric = metric } ∷ [])
                peers s'
        | _ ↦ ask_peers sender f idle_metrics peers s'
      ]
    ]

unfoldable pub get_idle_peer :
    {S : Type 0} → CommandSender S → Floats → List PeerId → Exec S ClientError (Option PeerId)
unfolding ask_peers
get_idle_peer sender f providers = ask_peers sender f [] providers
