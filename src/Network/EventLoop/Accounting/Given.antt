-- ===== src/Network/EventLoop/Accounting/Given.antt =====
-- Each command of src/network/event_loop.rs puts its sender in one place more.
use pyrsia.Base.{ℕ, ◌+◌, ◌≡◌, [], Bytes, arith}
use pyrsia.TransparencyLog.Database.{bytes_eq}
use pyrsia.Network.Types.{
  Command, add_probe, broadcast_block, bootstrap_dht, listen, dial, list_peers, get_status, provide,
  list_providers, request_build, respond_build, verify_build, request_artifact, respond_artifact,
  request_idle_metric, respond_idle_metric, request_blockchain, respond_blockchain,
  request_build_status, respond_build_status,
}
use pyrsia.Network.Tables.{one, count_in-insert}
use pyrsia.Network.EventLoop.{PyrsiaEventLoop, same_id}
use pyrsia.Network.EventLoop.Commands.{
  Swarm, handle_command, handle_add_probe, handle_bootstrap_dht, handle_dial, handle_status,
  handle_list_providers,
}
use pyrsia.Network.EventLoop.Accounting.{self, of_providers, places, given}

module _ (x : ℕ) (w : Swarm) (s : PyrsiaEventLoop) where
  places-handle_add_probe :
      (peer addr : Bytes) (sender : ℕ)
      → places x (handle_add_probe peer addr sender s).1 ≡ places x s + one x sender
  unfolding handle_add_probe
  places-handle_add_probe peer addr sender =
      ground (arith, count_in-insert bytes_eq self x peer sender s.pending_dial)

  places-handle_list_providers :
      (id : Bytes) (sender : ℕ)
      → places x (handle_list_providers w id sender s).1 ≡ places x s + one x sender
  unfolding handle_list_providers
  places-handle_list_providers id sender = ground (
    arith,
    count_in-insert same_id of_providers x w.id (record { sender = sender; providers = [] })
        s.pending_list_providers,
  )

  places-handle_bootstrap_dht :
      (sender : ℕ) → places x (handle_bootstrap_dht w sender s).1 ≡ places x s + one x sender
  unfolding handle_bootstrap_dht
  places-handle_bootstrap_dht sender =
      ground (arith, count_in-insert same_id self x w.id sender s.pending_bootstrap)

  places-handle_dial :
      (peer addr : Bytes) (sender : ℕ)
      → places x (handle_dial w peer addr sender s).1 ≡ places x s + one x sender
  unfolding handle_dial
  places-handle_dial peer addr sender =
      ground (arith, count_in-insert bytes_eq self x peer sender s.pending_dial)

  places-handle_status :
      (sender : ℕ) → places x (handle_status w sender s).1 ≡ places x s + one x sender
  unfolding handle_status
  places-handle_status sender = ground arith

  -- One command
  pub places-handle_command :
      (c : Command) → places x (handle_command w c s).1 ≡ places x s + given x c
  unfolding handle_command
  places-handle_command (add_probe peer addr sender) = places-handle_add_probe peer addr sender
  places-handle_command (broadcast_block block sender) = ground arith
  places-handle_command (bootstrap_dht sender) = places-handle_bootstrap_dht sender
  places-handle_command (listen addr sender) = ground arith
  places-handle_command (dial peer addr sender) = places-handle_dial peer addr sender
  places-handle_command (list_peers sender) = ground arith
  places-handle_command (get_status sender) = places-handle_status sender
  places-handle_command (provide id sender) =
      ground (arith, count_in-insert same_id self x w.id sender s.pending_start_providing)
  places-handle_command (list_providers id sender) = places-handle_list_providers id sender
  places-handle_command (request_build peer t id sender) =
      ground (arith, count_in-insert same_id self x w.id sender s.pending_request_build)
  places-handle_command (respond_build id channel) = ground arith
  places-handle_command (verify_build t id sender) = ground arith
  places-handle_command (request_artifact id peer sender) =
      ground (arith, count_in-insert same_id self x w.id sender s.pending_request_artifact)
  places-handle_command (respond_artifact bytes channel) = ground arith
  places-handle_command (request_idle_metric peer sender) =
      ground (arith, count_in-insert same_id self x w.id sender s.pending_idle_metric_requests)
  places-handle_command (respond_idle_metric bytes channel) = ground arith
  places-handle_command (request_blockchain bytes peer sender) =
      ground (arith, count_in-insert same_id self x w.id sender s.pending_blockchain_requests)
  places-handle_command (respond_blockchain bytes channel) = ground arith
  places-handle_command (request_build_status peer id sender) =
      ground (arith, count_in-insert same_id self x w.id sender s.pending_build_status_requests)
  places-handle_command (respond_build_status status channel) = ground arith
