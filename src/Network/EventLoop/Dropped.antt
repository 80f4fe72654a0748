-- ===== src/Network/EventLoop/Dropped.antt =====
-- Senders that src/network/event_loop.rs drops stay dropped: whoever waits for them has an error.
use pyrsia.Base.{ap, true, ℕ, ◌≡◌, [], arith, refl, none, some, ◌≤◌, List, ◌∷◌}
use pyrsia.Network.Types.{
  Command, add_probe, broadcast_block, bootstrap_dht, listen, dial, list_peers, get_status, provide,
  list_providers, request_build, respond_build, verify_build, request_artifact, respond_artifact,
  request_idle_metric, respond_idle_metric, request_blockchain, respond_blockchain,
  request_build_status, respond_build_status, blockchain_topic, build_topic,
}
use pyrsia.Network.Tables.{count}
use pyrsia.Network.EventLoop.{PyrsiaEventLoop}
use pyrsia.Network.EventLoop.Commands.{Swarm, handle_command}
use pyrsia.Network.EventLoop.Accounting.{places, pending, count_answers}
use pyrsia.Network.EventLoop.Events.{
  Surroundings, Event, autonat, gossipsub, identify, kademlia, request_response,
  build_request_response, idle_metric_request_response, blockchain_request_response,
  build_status_request_response, swarm, request, response, inbound_failure, outbound_failure,
  response_sent, KademliaEvent, start_providing, found_providers,
  finished_with_no_additional_record, bootstrap_ok, bootstrap_err, other_kademlia, SwarmEvent,
  connection_established, outgoing_connection_error, other_swarm, handle_event,
  handle_kademlia_event, handle_swarm_event,
}
use pyrsia.Network.EventLoop.Run.{Input, command, event, handle, run}
use pyrsia.Network.EventLoop.Accounting.Runs.{senders, places-run}

module _ (x : ℕ) (w : Swarm) (s : PyrsiaEventLoop) where
  dropped-handle_command :
      (c : Command) → count x s.dropped ≤ count x (handle_command w c s).1.dropped
  unfolding handle_command
  dropped-handle_command (add_probe peer addr sender) = ground arith
  dropped-handle_command (broadcast_block block sender) = ground arith
  dropped-handle_command (bootstrap_dht sender) = ground arith
  dropped-handle_command (listen addr sender) = ground arith
  dropped-handle_command (dial peer addr sender) = ground arith
  dropped-handle_command (list_peers sender) = ground arith
  dropped-handle_command (get_status sender) = ground arith
  dropped-handle_command (provide id sender) = ground arith
  dropped-handle_command (list_providers id sender) = ground arith
  dropped-handle_command (request_build peer t id sender) = ground arith
  dropped-handle_command (respond_build id channel) = ground arith
  dropped-handle_command (verify_build t id sender) = ground arith
  dropped-handle_command (request_artifact id peer sender) = ground arith
  dropped-handle_command (respond_artifact bytes channel) = ground arith
  dropped-handle_command (request_idle_metric peer sender) = ground arith
  dropped-handle_command (respond_idle_metric bytes channel) = ground arith
  dropped-handle_command (request_blockchain bytes peer sender) = ground arith
  dropped-handle_command (respond_blockchain bytes channel) = ground arith
  dropped-handle_command (request_build_status peer id sender) = ground arith
  dropped-handle_command (respond_build_status status channel) = ground arith

module _ (w : Surroundings) (s : PyrsiaEventLoop) where
  dropped-handle_kademlia_event :
      (e : KademliaEvent) → (handle_kademlia_event e s).1.dropped ≡ s.dropped
  unfolding handle_kademlia_event
  dropped-handle_kademlia_event (start_providing id) = ground arith
  dropped-handle_kademlia_event (found_providers id providers) = ground arith
  dropped-handle_kademlia_event (finished_with_no_additional_record id) = ground arith
  dropped-handle_kademlia_event (bootstrap_ok id num_remaining) = ground arith
  dropped-handle_kademlia_event (bootstrap_err id) = ground arith
  dropped-handle_kademlia_event other_kademlia = refl

  dropped-handle_swarm_event : (e : SwarmEvent) → (handle_swarm_event e s).1.dropped ≡ s.dropped
  unfolding handle_swarm_event
  dropped-handle_swarm_event (connection_established peer_id is_dialer address) = ground arith
  dropped-handle_swarm_event (outgoing_connection_error none) = refl
  dropped-handle_swarm_event (outgoing_connection_error (some peer_id)) = ground arith
  dropped-handle_swarm_event other_swarm = refl

  dropped-handle_event : (e : Event) → (handle_event w e s).1.dropped ≡ s.dropped
  unfolding handle_event
  dropped-handle_event (request_response (request a channel)) = ground arith
  dropped-handle_event (request_response (response id a)) = ground arith
  dropped-handle_event (request_response (outbound_failure id)) = ground arith
  dropped-handle_event (request_response inbound_failure) = refl
  dropped-handle_event (request_response response_sent) = refl
  dropped-handle_event (build_request_response (request a channel)) = ground arith
  dropped-handle_event (build_request_response (response id a)) = ground arith
  dropped-handle_event (build_request_response (outbound_failure id)) = ground arith
  dropped-handle_event (build_request_response inbound_failure) = refl
  dropped-handle_event (build_request_response response_sent) = refl
  dropped-handle_event (idle_metric_request_response (request a channel)) = ground arith
  dropped-handle_event (idle_metric_request_response (response id a)) = ground arith
  dropped-handle_event (idle_metric_request_response (outbound_failure id)) = ground arith
  dropped-handle_event (idle_metric_request_response inbound_failure) = refl
  dropped-handle_event (idle_metric_request_response response_sent) = refl
  dropped-handle_event (blockchain_request_response (request a channel)) = ground arith
  dropped-handle_event (blockchain_request_response (response id a)) = ground arith
  dropped-handle_event (blockchain_request_response (outbound_failure id)) = ground arith
  dropped-handle_event (blockchain_request_response inbound_failure) = refl
  dropped-handle_event (blockchain_request_response response_sent) = refl
  dropped-handle_event (build_status_request_response (request a channel)) = ground arith
  dropped-handle_event (build_status_request_response (response id a)) = ground arith
  dropped-handle_event (build_status_request_response (outbound_failure id)) = ground arith
  dropped-handle_event (build_status_request_response inbound_failure) = refl
  dropped-handle_event (build_status_request_response response_sent) = refl
  dropped-handle_event (autonat none) = refl
  dropped-handle_event (autonat (some address)) = refl
  dropped-handle_event (gossipsub none source buf) = refl
  dropped-handle_event (gossipsub (some blockchain_topic) source buf) = ground arith
  dropped-handle_event (gossipsub (some build_topic) none buf) = refl
  dropped-handle_event (gossipsub (some build_topic) (some peer_id) buf) = ground arith
  dropped-handle_event identify = refl
  dropped-handle_event (kademlia e) = dropped-handle_kademlia_event e
  dropped-handle_event (swarm e) = dropped-handle_swarm_event e

dropped-handle :
    (x : ℕ) (input : Input) (s : PyrsiaEventLoop)
    → count x s.dropped ≤ count x (handle input s).1.dropped
unfolding handle
dropped-handle x (command w c) s = dropped-handle_command x w s c
dropped-handle x (event w e) s = omega (arith, ap (count x) (dropped-handle_event w s e))

dropped-run :
    (x : ℕ) (inputs : List Input) (s : PyrsiaEventLoop)
    → count x s.dropped ≤ count x (run inputs s).1.dropped
unfolding run
dropped-run x [] s = omega arith
dropped-run x (input ∷ inputs) s =
    ground (arith, dropped-handle x input s, dropped-run x inputs (handle input s).1)

-- Once the loop has bootstrapped, the channel of any further bootstrap command is dropped at once,
-- and whatever happens from then on, no answer is ever sent into it, if it is a new one.
pub bootstrap_dht-never_answered :
    (w : Swarm) (sender : ℕ) (inputs : List Input) (s : PyrsiaEventLoop)
    → s.bootstrapped ≡ true
    → places sender s ≡ 0
    → count sender (senders inputs) ≡ 0
    → let s' = (run inputs (handle_command w (bootstrap_dht sender) s).1).1 in
      (count sender s'.dropped ≡ 1) × (count_answers sender s'.sent ≡ 0) × (pending sender s' ≡ 0)
unfolding handle_command
bootstrap_dht-never_answered w sender inputs s again fresh unused =
    let s1 = (handle_command w (bootstrap_dht sender) s).1 in
    let dropped_now : 1 ≤ count sender s1.dropped = ground (arith, again) in
    let one_more : places sender s1 ≡ 1 = ground (arith, again, fresh) in
    let (_, most) = places-run sender inputs s1 in
    let kept = dropped-run sender inputs s1 in
    omega (arith, dropped_now, one_more, most, kept, unused)
