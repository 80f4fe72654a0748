-- ===== src/BlockchainService/Convergence.antt =====
-- A new node that pulls from another one, both running the program: `init_pull_from_others` of
-- src/blockchain_service/service.rs against `handle_incoming_blockchain_command`.
use pyrsia.Base.{
  ℕ, suc, ◌*◌, ◌^◌, ◌<◌, ◌≤◌, ◌≡◌, ◌∙◌, ap, sym, true, some, none, Option, [], Bytes, arith, length,
  take, take_all, le→leb, lt→ltb,
}
use mathlib.Core.List.{append-nil}
use pyrsia.Outcome.{Outcome, ok, err, panicked, ◌>>=◌}
use pyrsia.Blockchain.Types.{Block, Chain}
use pyrsia.Blockchain.Platform.{Platform}
use pyrsia.Blockchain.Chain
use pyrsia.Blockchain.Chain.Sequential.{IsSequential, IsSequential-last}
use pyrsia.Blockchain.Chain.Retrieval.{range}
use pyrsia.Blockchain.Disk.{FileSystem, Directory}
use pyrsia.Blockchain.Blockchain
use pyrsia.Blockchain.Blockchain.{Blockchain, Setting}
use pyrsia.Blockchain.Blockchain.Commit.{IsSound, IsWritable}
use pyrsia.BlockchainService
use pyrsia.BlockchainService.{
  Network, PeerId, BlockchainService, init_other_blockchain_node, init_pull_from_others,
}
use pyrsia.BlockchainService.Pulling.{add_blocks_lem}
use pyrsia.BlockchainService.Message.{query_message}
use pyrsia.Network.Codecs.{Wire, IsReliable, read_not_empty}
use pyrsia.Network.Codecs.Blockchain as Codec
use pyrsia.Network.Codecs.RoundTrip.{write_and_close-sent, read_not_empty-whole}
use pyrsia.BlockchainService.Responder.{
  Listener, BlockchainEventLoop, handle_incoming_blockchain_command,
}
use pyrsia.BlockchainService.Responder.Messages.{respond_pull, respond_query}

abbrev value_of : {E A : Type 0} → Outcome E A → Option A
value_of (ok a) = some a
value_of (err e) = none
value_of panicked = none

-- A request and a response on their way over the wire, by the codec of either side
abbrev pub carried_request : Wire → Bytes → Option Bytes
carried_request w m = value_of (
    Codec.write_request w [] (record { message = m }) >>= λ sent.
    Codec.read_request w sent >>= λ (request, _). ok request.message)

abbrev pub carried_response : Wire → Bytes → Option Bytes
carried_response w m = value_of (
    Codec.write_response w [] (record { message = m }) >>= λ sent.
    Codec.read_response w sent >>= λ (response, _). ok response.message)

-- Requests go over the wire to one other node, which is at rest in a given state, and its responses
-- come back over the wire.
abbrev pub network_of :
    {L : Type 0} → Wire → Platform → FileSystem → Listener L → BlockchainEventLoop L → Network
network_of w p fs listener peer = record {
  broadcast_block = λ _. true;
  request_blockchain = λ _ m. elim (carried_request w m) [
    | none ↦ none
    | some request ↦
        elim (value_of (handle_incoming_blockchain_command p fs listener request peer).0) [
          | none ↦ none
          | some answer ↦ carried_response w answer
        ]
  ];
}

module _ (w : Wire) (frame : Bytes → Bytes) (reliable : IsReliable w frame) where
  abbrev Fits : Bytes → Type 0
  Fits m = (0 < length m) × (length m ≤ 10 * 1024 * 1024)

  frame-read : (m : Bytes) → Fits m → read_not_empty w (frame m) (10 * 1024 * 1024) ≡ ok (m, [])
  frame-read m (low, high) =
      ap (λ io. read_not_empty w io (10 * 1024 * 1024)) (sym (append-nil (frame m)))
      ∙ read_not_empty-whole w frame reliable m [] (10 * 1024 * 1024)
          (λ e. absurd (omega (arith, ap (λ (l : Bytes). length l) e, low))) high

  carried_request_whole : (m : Bytes) → Fits m → carried_request w m ≡ some m
  unfolding Codec.write_request Codec.read_request
  carried_request_whole m fits =
      ground (arith, write_and_close-sent w frame reliable [] m, frame-read m fits)

  carried_response_whole : (m : Bytes) → Fits m → carried_response w m ≡ some m
  unfolding Codec.write_response Codec.read_response
  carried_response_whole m fits =
      ground (arith, write_and_close-sent w frame reliable [] m, frame-read m fits)

range_all : (c : Chain) (n : ℕ) → length c.blocks ≡ suc n → range c 0 n ≡ c.blocks
range_all c n e =
    rw (le→leb 0 n (omega arith), lt→ltb n (Chain.len c) (unfold Chain.len in omega arith))
      (ap (λ k. take k c.blocks) (omega arith) ∙ take_all c.blocks)

-- With other crates as documented: a node with no blocks, in a directory of regular files on a disk
-- that opens and writes every file, that pulls from a node whose chain is not empty, in order and has
-- at most 2^64 blocks, over a wire that carries what was written, ends up with the same chain and
-- reports its last ordinal, when the blocks in their serialised form have a byte and at most the
-- 10 MiB that the codec lets through.
pub init_pull_from_others_converges :
    {L : Type 0} (w : Wire) (frame : Bytes → Bytes) (s : Setting) (listener : Listener L)
    (peer : BlockchainEventLoop L) (last : Block) (id : PeerId) (d : Directory)
    → IsReliable w frame
    → ((bytes : Bytes)
        → s.platform.serialize_blocks peer.blockchain_service.blockchain.chain.blocks ≡ some bytes
        → (0 < length bytes) × (length bytes ≤ 10 * 1024 * 1024))
    → IsSound s
    → IsSequential 0 peer.blockchain_service.blockchain.chain.blocks
    → Chain.len peer.blockchain_service.blockchain.chain ≤ 2 ^ 64
    → BlockchainService.query_last_block peer.blockchain_service ≡ some last
    → ((k : ℕ) → IsWritable d k)
    → (node : BlockchainService) × (init_pull_from_others s.platform s.file_system
          (network_of w s.platform s.file_system listener peer)
          id
          (init_other_blockchain_node d)
        ≡ (ok last.header.ordinal, node))
      × (node.blockchain.chain.blocks ≡ peer.blockchain_service.blockchain.chain.blocks)
unfolding init_pull_from_others init_other_blockchain_node query_message
init_pull_from_others_converges w frame s listener peer last id d reliable small sound seq size at
      room =
    let p = s.platform in
    let fs = s.file_system in
    let blocks = peer.blockchain_service.blockchain.chain.blocks in
    let place =
      IsSequential-last 0 blocks last seq
        (unfold BlockchainService.query_last_block Blockchain.last_block Chain.last_block in at) in
    let fits : length blocks ≤ 2 ^ 64 = unfold Chain.len in size in
    let n = last.header.ordinal in
    let (m, answer, built, answered, understood, asking, written) =
      respond_pull p sound.writes sound.reads fs listener 0 n peer seq size (omega arith)
        (omega arith) in
    let (highest, told, known, sixteen) =
      respond_query p sound.writes sound.reads fs listener last peer at (omega arith) in
    let all_blocks = range_all peer.blockchain_service.blockchain.chain n (omega arith) in
    let fits_answer = small answer (ap p.serialize_blocks (sym all_blocks) ∙ written) in
    let there =
      carried_request_whole w frame reliable m (omega (arith, asking), omega (arith, asking)) in
    let back = carried_response_whole w frame reliable answer fits_answer in
    let there_first =
      carried_request_whole w frame reliable query_message (ground arith, ground arith) in
    let back_first =
      carried_response_whole w frame reliable highest
        (omega (arith, sixteen), omega (arith, sixteen)) in
    let start : Blockchain = record { chain = Chain.empty; directory = d } in
    let whole : p.deserialize_blocks answer ≡ some blocks = understood ∙ ap some all_blocks in
    let (bc, taken, all) = add_blocks_lem s blocks start sound tt seq (omega arith) room in
    (
      record { blockchain = bc; sent = [] },
      ground
          (arith, built, answered, whole, told, known, taken, there, back, there_first, back_first),
      all,
    )
