-- ===== src/Node/Events/Panics.antt =====
-- What a request of another node can do to the loop of pyrsia_node/src/main.rs.
use pyrsia.Base.{ℕ, ◌≡◌, ◌⊎◌, inl, inr, Option, List, [], ◌∷◌, Bytes, arith, length, ◌<◌}
use pyrsia.Outcome.{panicked}
use pyrsia.Blockchain.Platform.{Platform}
use pyrsia.Blockchain.Disk.{FileSystem}
use pyrsia.BlockchainService.Command.{broadcast, push_to_peer, pull_from_peer, to_u8, try_from}
use pyrsia.BlockchainService.Responder.{
  BlockchainEventLoop, Listener, handle_incoming_blockchain_command, respond, byte_range,
}
use pyrsia.Network.Types.{PyrsiaEvent, blockchain_requested}
use pyrsia.Node.Events.{Node, Moment, handle_pyrsia_event, serve}

-- An empty message, one that starts with the byte of "push to peer", or one that starts with the byte
-- of a broadcast or a pull and has fewer than 16 further bytes
abbrev pub IsFatal : Bytes → Type 0
IsFatal bytes =
    (bytes ≡ [])
    ⊎ ((rest : Bytes) × (bytes ≡ to_u8 push_to_peer ∷ rest))
    ⊎ ((rest : Bytes) × (bytes ≡ to_u8 broadcast ∷ rest) × (length rest < 16))
    ⊎ ((rest : Bytes) × (bytes ≡ to_u8 pull_from_peer ∷ rest) × (length rest < 16))

byte_range-short :
    (first : ℕ) (rest : Bytes) → length rest < 16 → byte_range (first ∷ rest) 1 17 ≡ panicked
unfolding byte_range
byte_range-short first rest short = ground arith

module _ {L : Type 0} (p : Platform) (fs : FileSystem) (listener : Listener L) where
  incoming-panicked :
      (bytes : Bytes) (b : BlockchainEventLoop L)
      → IsFatal bytes
      → handle_incoming_blockchain_command p fs listener bytes b ≡ (panicked, b)
  unfolding handle_incoming_blockchain_command respond try_from to_u8
  incoming-panicked bytes b (inl empty) = ground (arith, empty)
  incoming-panicked bytes b (inr (inl (rest, pushed))) = ground (arith, pushed)
  incoming-panicked bytes b (inr (inr (inl (rest, sent, short)))) =
      ground (arith, sent, byte_range-short 1 rest short)
  incoming-panicked bytes b (inr (inr (inr (rest, asked, short)))) =
      ground (arith, asked, byte_range-short 3 rest short)

module _ {S L : Type 0} (p : Platform) (fs : FileSystem) (listener : Listener L) where
  -- A blockchain message that is empty, that starts with the byte of "push to peer", or that is a
  -- broadcast or a pull cut off within the first ordinal, as a request or by gossip, ends the loop with a panic: no later event is handled.
  pub serve-panicked :
      (m : Moment S) (bytes : Bytes) (channel : Option ℕ) (rest : List (Moment S × PyrsiaEvent))
      (n : Node S L)
      → IsFatal bytes
      → serve p fs listener ((m, blockchain_requested bytes channel) ∷ rest) n ≡ (panicked, n)
  unfolding serve handle_pyrsia_event
  serve-panicked m bytes channel rest n fatal =
      ground (arith, incoming-panicked p fs listener bytes n.blockchain fatal)
