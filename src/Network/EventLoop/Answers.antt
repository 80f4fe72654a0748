-- ===== src/Network/EventLoop/Answers.antt =====
-- What src/network/event_loop.rs answers to requests, once libp2p has reported on them.
use pyrsia.Base.{ℕ, ◌≡◌, Bool, true, false, none, List, [], ◌∷◌, Bytes, arith, ◌||◌}
use pyrsia.Outcome.{ok}
use pyrsia.TransparencyLog.Types.{PackageType}
use pyrsia.TransparencyLog.Database.{bytes_eq}
use pyrsia.Network.Types
use pyrsia.Network.Types.{
  PeerId, Answer, BuildStatus, request_artifact, request_build, request_idle_metric,
  request_blockchain, request_build_status,
}
use pyrsia.Network.EventLoop.Accounting.{self}
use pyrsia.Network.Tables.{insert-get, insert, get, remove-insert}
use pyrsia.Network.EventLoop.{PyrsiaEventLoop, same_id}
use pyrsia.Network.EventLoop.Commands.{Swarm, handle_command}
use pyrsia.Network.EventLoop.Events.{
  Surroundings, request_response, build_request_response, idle_metric_request_response,
  blockchain_request_response, build_status_request_response, kademlia, found_providers,
  finished_with_no_additional_record, response, handle_event,
}
use pyrsia.Network.EventLoop.Run.{Input, command, event, handle, run}

abbrev pub peer_in : PeerId → List PeerId → Bool
peer_in q [] = false
peer_in q (p ∷ ps) = bytes_eq p q || peer_in q ps

abbrev pub reports : Surroundings → ℕ → List (List PeerId) → List Input
reports w id [] = event w (kademlia (finished_with_no_additional_record id)) ∷ []
reports w id (batch ∷ batches) =
    event w (kademlia (found_providers id batch)) ∷ reports w id batches

-- Whether a peer is in one of the batches
abbrev pub peer_in_any : PeerId → List (List PeerId) → Bool
peer_in_any q [] = false
peer_in_any q (batch ∷ batches) = peer_in q batch || peer_in_any q batches

same_id_refl : (n : ℕ) → same_id n n ≡ true
same_id_refl n = ground arith

abbrev waiting : ℕ → ℕ → List PeerId → PyrsiaEventLoop → PyrsiaEventLoop
waiting id sender known s = record s {
  pending_list_providers =
      (insert same_id id (record { sender = sender; providers = known })
        s.pending_list_providers).0;
}

-- A request and the response to it, under an identifier that is not in use: the loop is as before,
-- but that the sender of the request was told the content of the response, and that libp2p was
-- called; so for each of the five protocols.
pub request-response_answered :
    (w : Swarm) (v : Surroundings) (peer : PeerId) (t : PackageType) (id content : Bytes)
    (status : BuildStatus) (sender : ℕ) (s : PyrsiaEventLoop)
    → (get same_id w.id s.pending_request_artifact ≡ none
        → run
            (command w (request_artifact id peer sender)
              ∷ event v (request_response (response w.id content))
              ∷ [])
            s
          ≡ (
            ok tt,
            record s {
              sent = (sender, Types.artifact content) ∷ s.sent;
              calls = Types.send_request peer (Types.for_artifact id) ∷ s.calls;
            },
          ))
      × (get same_id w.id s.pending_request_build ≡ none
          → run
              (command w (request_build peer t id sender)
                ∷ event v (build_request_response (response w.id content))
                ∷ [])
              s
            ≡ (
              ok tt,
              record s {
                sent = (sender, Types.build_id content) ∷ s.sent;
                calls = Types.send_request peer (Types.for_build t id) ∷ s.calls;
              },
            ))
      × (get same_id w.id s.pending_idle_metric_requests ≡ none
          → run
              (command w (request_idle_metric peer sender)
                ∷ event v (idle_metric_request_response (response w.id content))
                ∷ [])
              s
            ≡ (
              ok tt,
              record s {
                sent = (sender, Types.metric content) ∷ s.sent;
                calls = Types.send_request peer Types.for_idle_metric ∷ s.calls;
              },
            ))
      × (get same_id w.id s.pending_blockchain_requests ≡ none
          → run
              (command w (request_blockchain id peer sender)
                ∷ event v (blockchain_request_response (response w.id content))
                ∷ [])
              s
            ≡ (
              ok tt,
              record s {
                sent = (sender, Types.blockchain content) ∷ s.sent;
                calls = Types.send_request peer (Types.for_blockchain id) ∷ s.calls;
              },
            ))
      × (get same_id w.id s.pending_build_status_requests ≡ none
          → run
              (command w (request_build_status peer id sender)
                ∷ event v (build_status_request_response (response w.id status))
                ∷ [])
              s
            ≡ (
              ok tt,
              record s {
                sent = (sender, Types.build_status status) ∷ s.sent;
                calls = Types.send_request peer (Types.for_build_status id) ∷ s.calls;
              },
            ))
unfolding run handle handle_command handle_event
request-response_answered w v peer t id content status sender s =
    let here = same_id_refl w.id in
    (
      (λ free. ground (
        arith,
        free,
        remove-insert same_id w.id here sender s.pending_request_artifact free,
        insert-get same_id self w.id sender s.pending_request_artifact,
      )),
      (λ free. ground (
        arith,
        free,
        remove-insert same_id w.id here sender s.pending_request_build free,
        insert-get same_id self w.id sender s.pending_request_build,
      )),
      (λ free. ground (
        arith,
        free,
        remove-insert same_id w.id here sender s.pending_idle_metric_requests free,
        insert-get same_id self w.id sender s.pending_idle_metric_requests,
      )),
      (λ free. ground (
        arith,
        free,
        remove-insert same_id w.id here sender s.pending_blockchain_requests free,
        insert-get same_id self w.id sender s.pending_blockchain_requests,
      )),
      (λ free. ground (
        arith,
        free,
        remove-insert same_id w.id here sender s.pending_build_status_requests free,
        insert-get same_id self w.id sender s.pending_build_status_requests,
      )),
    )
