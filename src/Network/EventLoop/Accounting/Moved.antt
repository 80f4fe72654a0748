-- ===== src/Network/EventLoop/Accounting/Moved.antt =====
-- Each event of src/network/event_loop.rs leaves every sender in as many places as it was.
use pyrsia.Base.{ℕ, ◌≡◌, refl, none, some, Bytes, arith, Option-cases, inl, inr}
use pyrsia.TransparencyLog.Database.{bytes_eq}
use pyrsia.TransparencyLog.Types.{PackageType}
use pyrsia.Network.Types.{BuildStatus, blockchain_topic, build_topic}
use pyrsia.Network.Tables.{get, count_in-insert, count_in-remove, insert-get}
use pyrsia.Network.EventLoop.{PyrsiaEventLoop, PendingListProviders, same_id}
use pyrsia.Network.EventLoop.Events.{
  Surroundings, Event, autonat, gossipsub, identify, kademlia, request_response,
  build_request_response, idle_metric_request_response, blockchain_request_response,
  build_status_request_response, swarm, RequestResponseEvent, request, response, inbound_failure,
  outbound_failure, response_sent, KademliaEvent, start_providing, found_providers,
  finished_with_no_additional_record, bootstrap_ok, bootstrap_err, other_kademlia, SwarmEvent,
  connection_established, outgoing_connection_error, other_swarm, extend, handle_event,
  handle_kademlia_event, handle_swarm_event, handle_request_response_event,
  handle_build_request_response_event, handle_idle_metric_request_response_event,
  handle_blockchain_request_response_event, handle_build_status_request_response_event,
}
use pyrsia.Network.EventLoop.Accounting.{self, of_providers, places}

module _ (x : ℕ) (w : Surroundings) (s : PyrsiaEventLoop) where
  places-handle_kademlia_event :
      (e : KademliaEvent) → places x (handle_kademlia_event e s).1 ≡ places x s
  unfolding handle_kademlia_event
  places-handle_kademlia_event (start_providing id) =
      ground (arith, count_in-remove same_id self x id s.pending_start_providing)
  places-handle_kademlia_event (found_providers id providers) =
      elim (Option-cases (get same_id id s.pending_list_providers)) [
        | inl nothing ↦ ground (arith, nothing)
        | inr (p, found) ↦
            let p' : PendingListProviders = record p { providers = extend p.providers providers } in
            ground (
              arith,
              found,
              insert-get same_id of_providers id p' s.pending_list_providers,
              count_in-insert same_id of_providers x id p' s.pending_list_providers,
            )
      ]
  places-handle_kademlia_event (finished_with_no_additional_record id) =
      ground (arith, count_in-remove same_id of_providers x id s.pending_list_providers)
  places-handle_kademlia_event (bootstrap_ok id num_remaining) =
      ground (arith, count_in-remove same_id self x id s.pending_bootstrap)
  places-handle_kademlia_event (bootstrap_err id) =
      ground (arith, count_in-remove same_id self x id s.pending_bootstrap)
  places-handle_kademlia_event other_kademlia = refl

  places-handle_swarm_event : (e : SwarmEvent) → places x (handle_swarm_event e s).1 ≡ places x s
  unfolding handle_swarm_event
  places-handle_swarm_event (connection_established peer_id is_dialer address) =
      ground (arith, count_in-remove bytes_eq self x peer_id s.pending_dial)
  places-handle_swarm_event (outgoing_connection_error none) = refl
  places-handle_swarm_event (outgoing_connection_error (some peer_id)) =
      ground (arith, count_in-remove bytes_eq self x peer_id s.pending_dial)
  places-handle_swarm_event other_swarm = refl

  places-handle_request_response_event :
      (e : RequestResponseEvent Bytes Bytes)
      → places x (handle_request_response_event w e s).1 ≡ places x s
  unfolding handle_request_response_event
  places-handle_request_response_event (request a channel) = ground arith
  places-handle_request_response_event (response id a) =
      ground (arith, count_in-remove same_id self x id s.pending_request_artifact)
  places-handle_request_response_event (outbound_failure id) =
      ground (arith, count_in-remove same_id self x id s.pending_request_artifact)
  places-handle_request_response_event inbound_failure = refl
  places-handle_request_response_event response_sent = refl

  places-handle_build_request_response_event :
      (e : RequestResponseEvent (PackageType × Bytes) Bytes)
      → places x (handle_build_request_response_event w e s).1 ≡ places x s
  unfolding handle_build_request_response_event
  places-handle_build_request_response_event (request (t, a) channel) = ground arith
  places-handle_build_request_response_event (response id a) =
      ground (arith, count_in-remove same_id self x id s.pending_request_build)
  places-handle_build_request_response_event (outbound_failure id) =
      ground (arith, count_in-remove same_id self x id s.pending_request_build)
  places-handle_build_request_response_event inbound_failure = refl
  places-handle_build_request_response_event response_sent = refl

  places-handle_idle_metric_request_response_event :
      (e : RequestResponseEvent (Unit {0}) Bytes)
      → places x (handle_idle_metric_request_response_event w e s).1 ≡ places x s
  unfolding handle_idle_metric_request_response_event
  places-handle_idle_metric_request_response_event (request a channel) = ground arith
  places-handle_idle_metric_request_response_event (response id a) =
      ground (arith, count_in-remove same_id self x id s.pending_idle_metric_requests)
  places-handle_idle_metric_request_response_event (outbound_failure id) =
      ground (arith, count_in-remove same_id self x id s.pending_idle_metric_requests)
  places-handle_idle_metric_request_response_event inbound_failure = refl
  places-handle_idle_metric_request_response_event response_sent = refl

  places-handle_blockchain_request_response_event :
      (e : RequestResponseEvent Bytes Bytes)
      → places x (handle_blockchain_request_response_event w e s).1 ≡ places x s
  unfolding handle_blockchain_request_response_event
  places-handle_blockchain_request_response_event (request a channel) = ground arith
  places-handle_blockchain_request_response_event (response id a) =
      ground (arith, count_in-remove same_id self x id s.pending_blockchain_requests)
  places-handle_blockchain_request_response_event (outbound_failure id) =
      ground (arith, count_in-remove same_id self x id s.pending_blockchain_requests)
  places-handle_blockchain_request_response_event inbound_failure = refl
  places-handle_blockchain_request_response_event response_sent = refl

  places-handle_build_status_request_response_event :
      (e : RequestResponseEvent Bytes BuildStatus)
      → places x (handle_build_status_request_response_event w e s).1 ≡ places x s
  unfolding handle_build_status_request_response_event
  places-handle_build_status_request_response_event (request a channel) = ground arith
  places-handle_build_status_request_response_event (response id a) =
      ground (arith, count_in-remove same_id self x id s.pending_build_status_requests)
  places-handle_build_status_request_response_event (outbound_failure id) =
      ground (arith, count_in-remove same_id self x id s.pending_build_status_requests)
  places-handle_build_status_request_response_event inbound_failure = refl
  places-handle_build_status_request_response_event response_sent = refl

  -- Events move senders, and neither make nor lose one.
  pub places-handle_event : (e : Event) → places x (handle_event w e s).1 ≡ places x s
  unfolding handle_event
  places-handle_event (autonat none) = refl
  places-handle_event (autonat (some address)) = refl
  places-handle_event (gossipsub none source buf) = refl
  places-handle_event (gossipsub (some blockchain_topic) source buf) = ground arith
  places-handle_event (gossipsub (some build_topic) none buf) = refl
  places-handle_event (gossipsub (some build_topic) (some peer_id) buf) = ground arith
  places-handle_event identify = refl
  places-handle_event (kademlia e) = places-handle_kademlia_event e
  places-handle_event (request_response e) = places-handle_request_response_event e
  places-handle_event (build_request_response e) = places-handle_build_request_response_event e
  places-handle_event (idle_metric_request_response e) =
      places-handle_idle_metric_request_response_event e
  places-handle_event (blockchain_request_response e) =
      places-handle_blockchain_request_response_event e
  places-handle_event (build_status_request_response e) =
      places-handle_build_status_request_response_event e
  places-handle_event (swarm e) = places-handle_swarm_event e
