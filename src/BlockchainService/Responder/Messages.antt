-- ===== src/BlockchainService/Responder/Messages.antt =====
-- Each message of src/blockchain_service/service.rs is understood by
-- `handle_incoming_blockchain_command` of pyrsia_node/src/network/handlers.rs.
use pyrsia.Base.{
  ℕ, ◌^◌, ◌<◌, ◌≤◌, ◌≡◌, sym, ◌∙◌, ap, some, [], ◌∷◌, ◌++◌, Bytes, arith, length, length-append,
  take, drop, take-append_length, drop-append_length, le→leb,
}
use mathlib.Core.List.{append-nil}
use pyrsia.Outcome.{ok}
use pyrsia.Exec.{pure, ◌>>◌}
use pyrsia.Blockchain.Types.{Ordinal, Block}
use pyrsia.Blockchain.Platform.{Platform, SerializeLaws, DeserializeLaws}
use pyrsia.Blockchain.Chain
use pyrsia.Blockchain.Chain.Sequential.{IsSequential}
use pyrsia.Blockchain.Chain.Retrieval.{range, retrieve_blocks_lem}
use pyrsia.Blockchain.Blockchain
use pyrsia.Blockchain.Disk.{FileSystem}
use pyrsia.BlockchainService
use pyrsia.BlockchainService.Command.{to_u8, try_from, broadcast, pull_from_peer}
use pyrsia.BlockchainService.Message.{broadcast_message, query_message, pull_message}
use pyrsia.BlockchainService.Responder.{
  Listener, BlockchainEventLoop, handle_block_broadcast, handle_pull_blocks,
  handle_query_block_ordinal, byte_range, bytes_from, respond, handle_incoming_blockchain_command,
}

byte_range_lem :
    (c : ℕ) (xs rest : Bytes) → length xs ≡ 16 → byte_range (c ∷ xs ++ rest) 1 17 ≡ ok xs
unfolding byte_range
byte_range_lem c xs rest e =
    rw (le→leb 17 (length (c ∷ xs ++ rest)) (omega (arith, length-append xs rest)))
      (ap ok (ap (λ n. take n (xs ++ rest)) (sym e) ∙ take-append_length xs rest))

bytes_from_lem :
    (c : ℕ) (xs rest : Bytes) → length xs ≡ 16 → bytes_from (c ∷ xs ++ rest) 17 ≡ ok rest
unfolding bytes_from
bytes_from_lem c xs rest e =
    rw (le→leb 17 (length (c ∷ xs ++ rest)) (omega (arith, length-append xs rest)))
      (ap ok (ap (λ n. drop n (xs ++ rest)) (sym e) ∙ drop-append_length xs rest))

module _ (p : Platform) (writes : SerializeLaws p) (reads : DeserializeLaws p) where
  ordinal_reads :
      (n : Ordinal) (b : Bytes) → p.serialize_ordinal n ≡ some b → p.deserialize_ordinal b ≡ some n
  ordinal_reads n b e = ap p.deserialize_ordinal (sym (append-nil b)) ∙ reads.ordinal_reads n b [] e

  block_reads :
      (x : Block) (b : Bytes) → p.serialize_block x ≡ some b → p.deserialize_block b ≡ some x
  block_reads x b e = ap p.deserialize_block (sym (append-nil b)) ∙ reads.block_reads x b [] e

  module _ {L : Type 0} (fs : FileSystem) (listener : Listener L) where
    -- A node that gets the broadcast of a block places the very block, under the ordinal of its header.
    pub respond_broadcast :
        (b : Block) (s : BlockchainEventLoop L)
        → b.header.ordinal < 2 ^ 128
        → (m : Bytes) × (broadcast_message p b ≡ ok m)
          × (handle_incoming_blockchain_command p fs listener m s
              ≡ (handle_block_broadcast p fs listener b.header.ordinal b >> pure (0 ∷ [])) s)
    unfolding handle_incoming_blockchain_command respond broadcast_message try_from
    respond_broadcast b s small =
        let (ob, written, size) = reads.ordinal_writes b.header.ordinal small in
        let (bb, written_b) = writes.block_writes b in
        let cut = byte_range_lem (to_u8 broadcast) ob bb size in
        let tail = bytes_from_lem (to_u8 broadcast) ob bb size in
        (
          to_u8 broadcast ∷ ob ++ bb,
          rw (written, written_b),
          unfold to_u8 in
              rw (cut, ordinal_reads b.header.ordinal ob written, tail, block_reads b bb written_b),
        )

    -- A node with a chain in order answers the request for a range with exactly the blocks of that
    -- range, and is not changed by it; the request has 33 bytes.
    pub respond_pull :
        (start end : Ordinal) (s : BlockchainEventLoop L)
        → IsSequential 0 s.blockchain_service.blockchain.chain.blocks
        → Chain.len s.blockchain_service.blockchain.chain ≤ 2 ^ 64
        → start < 2 ^ 128
        → end < 2 ^ 128
        → (m answer : Bytes) × (pull_message p start end ≡ ok m)
          × (handle_incoming_blockchain_command p fs listener m s ≡ (ok answer, s))
          × (p.deserialize_blocks answer
              ≡ some (range s.blockchain_service.blockchain.chain start end))
          × (length m ≡ 33)
          × (p.serialize_blocks (range s.blockchain_service.blockchain.chain start end)
              ≡ some answer)
    unfolding handle_incoming_blockchain_command respond pull_message try_from
    respond_pull start end s seq size hs he =
        let (sb, written, sized) = reads.ordinal_writes start hs in
        let (eb, written_e, sized_e) = reads.ordinal_writes end he in
        let c = s.blockchain_service.blockchain.chain in
        let (answer, written_a) = writes.blocks_writes (range c start end) in
        let cut = byte_range_lem (to_u8 pull_from_peer) sb eb sized in
        let tail = bytes_from_lem (to_u8 pull_from_peer) sb eb sized in
        let pulled : handle_pull_blocks p fs listener start end s ≡ (ok (range c start end), s) =
          unfold handle_pull_blocks BlockchainService.pull_blocks Blockchain.pull_blocks in
          rw (retrieve_blocks_lem c start end seq size) in
        (
          to_u8 pull_from_peer ∷ sb ++ eb,
          answer,
          rw (written, written_e),
          unfold to_u8 in
              ground (
                arith,
                cut,
                ordinal_reads start sb written,
                tail,
                ordinal_reads end eb written_e,
                pulled,
                written_a,
              ),
          ap p.deserialize_blocks (sym (append-nil answer))
              ∙ reads.blocks_reads (range c start end) answer [] written_a,
          omega (arith, sized, sized_e, length-append sb eb),
          written_a,
        )

    -- A node with a chain answers the request for its highest ordinal with the last block's, and is
    -- not changed by it.
    pub respond_query :
        (last : Block) (s : BlockchainEventLoop L)
        → BlockchainService.query_last_block s.blockchain_service ≡ some last
        → last.header.ordinal < 2 ^ 128
        → (answer : Bytes) × (handle_incoming_blockchain_command p fs listener query_message s
            ≡ (ok answer, s))
          × (p.deserialize_ordinal answer ≡ some last.header.ordinal)
          × (length answer ≡ 16)
    unfolding handle_incoming_blockchain_command respond query_message try_from to_u8
    respond_query last s at small =
        let (answer, written, sized) = reads.ordinal_writes last.header.ordinal small in
        let asked : handle_query_block_ordinal p fs listener s ≡ (ok last.header.ordinal, s) =
          unfold handle_query_block_ordinal in ground (arith, at) in
        (
          answer,
          ground (arith, asked, written),
          ordinal_reads last.header.ordinal answer written,
          sized,
        )
