-- ===== src/BlockchainService/Events.antt =====
-- The events of src/blockchain_service/event.rs: what the clients of the loop ask, and what the loop
-- answers them.
pub mod Answered
use pyrsia.Base.{ℕ, List, [], ◌∷◌, ◌++◌, Bytes}
use pyrsia.Outcome.{Outcome, ok, err, panicked}
use pyrsia.Blockchain.Types.{Ordinal, Block, BlockchainError}
use pyrsia.Blockchain.Blockchain.{Setting}
use pyrsia.BlockchainService.{PeerId, Network, add_payload, init_pull_from_others, pull_blocks}
use pyrsia.BlockchainService.Responder.{
  BlockchainEventLoop, Listener, in_service, handle_block_broadcast, handle_pull_blocks,
  handle_query_block_ordinal,
}

-- The last number is the channel for the answer.
pub data BlockchainEvent : Type 0 where
  add_block : Bytes → ℕ → BlockchainEvent
  pull_blocks_from_peer : PeerId → ℕ → BlockchainEvent
  pull_blocks_local : Ordinal → Ordinal → ℕ → BlockchainEvent
  block_broadcast : Ordinal → Block → ℕ → BlockchainEvent
  blocks_pulled : Ordinal → Ordinal → ℕ → BlockchainEvent
  block_ordinal_queried : ℕ → BlockchainEvent

-- What is sent into such a channel
pub data BlockchainAnswer : Type 0 where
  done : Outcome BlockchainError (Unit {0}) → BlockchainAnswer
  ordinal : Outcome BlockchainError Ordinal → BlockchainAnswer
  blocks : Outcome BlockchainError (List Block) → BlockchainAnswer

-- The loop, and what it has answered
pub record Answering (L : Type 0) : Type 0 where
  pub event_loop : BlockchainEventLoop L
  pub sent : List (ℕ × BlockchainAnswer)

abbrev pub Answered : Type 0 → Type 0
Answered L = Outcome (Unit {0}) (Unit {0}) × Answering L

module _ {L A : Type 0} where
  -- `sender.send(result)`, unless the call has panicked
  abbrev pub answer :
      ℕ
      → (Outcome BlockchainError A → BlockchainAnswer)
      → Outcome BlockchainError A × BlockchainEventLoop L
      → Answering L
      → Answered L
  answer sender form (ok a, l) s =
      (ok tt, record { event_loop = l; sent = s.sent ++ (sender, form (ok a)) ∷ [] })
  answer sender form (err e, l) s =
      (ok tt, record { event_loop = l; sent = s.sent ++ (sender, form (err e)) ∷ [] })
  answer sender form (panicked, l) s = (panicked, record s { event_loop = l })

-- What the service draws and what the network answers while an event is handled
pub record Moment : Type 0 where
  pub setting : Setting
  pub net : Network

module _ {L : Type 0} (listener : Listener L) where
  -- `handle_blockchain_event`
  unfoldable pub handle_blockchain_event : Moment → BlockchainEvent → Answering L → Answered L
  handle_blockchain_event m (add_block payload sender) s =
      let p = m.setting.platform in
      answer sender done
        (in_service p m.setting.file_system listener (add_payload m.setting m.net payload)
          s.event_loop)
        s
  handle_blockchain_event m (pull_blocks_from_peer peer_id sender) s =
      let p = m.setting.platform in
      let fs = m.setting.file_system in
      answer sender ordinal
        (in_service p fs listener (init_pull_from_others p fs m.net peer_id) s.event_loop) s
  handle_blockchain_event m (pull_blocks_local start end sender) s =
      answer sender blocks (pull_blocks start end s.event_loop.blockchain_service, s.event_loop) s
  handle_blockchain_event m (block_broadcast block_ordinal block sender) s =
      answer sender done
        (handle_block_broadcast m.setting.platform m.setting.file_system listener block_ordinal
          block s.event_loop)
        s
  handle_blockchain_event m (blocks_pulled start end sender) s =
      answer sender blocks
        (handle_pull_blocks m.setting.platform m.setting.file_system listener start end
          s.event_loop)
        s
  handle_blockchain_event m (block_ordinal_queried sender) s =
      answer sender ordinal
        (handle_query_block_ordinal m.setting.platform m.setting.file_system listener s.event_loop)
        s

  -- `run`, over the events that come in until the channel is closed or a handler panics
  unfoldable pub run : List (Moment × BlockchainEvent) → Answering L → Answered L
  run [] s = (ok tt, s)
  run ((m, event) ∷ rest) s =
      let (r, s') = handle_blockchain_event m event s in
      elim r [ ok _ ↦ run rest s' | err e ↦ (err e, s') | panicked ↦ (panicked, s') ]
