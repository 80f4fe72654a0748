-- ===== src/Blockchain/Platform.antt =====
-- What blockchain/src calls of other crates: Keccak-256 (multihash), ed25519 keys (libp2p,
-- ed25519_dalek), bincode, the clock and the random numbers. A key pair is its encoded bytes.
use pyrsia.Base.{ℕ, ◌<◌, ◌^◌, ◌≡◌, Bool, true, Option, some, List, ◌++◌, Bytes, length}
use pyrsia.Blockchain.Types.{
  HashDigest, Ordinal, PartialHeader, PartialTransaction, Transaction, Block,
}

-- A serialiser that gives `none` reports a `bincode::Error`.
pub record Platform : Type 0 where
  pub keccak256 : Bytes → Bytes
  pub public_key : Bytes → Bytes
  pub peer_id_of : Bytes → Bytes
  pub sign : Bytes → Bytes → Bytes
  pub signature_from_bytes : Bytes → Option Bytes
  pub decode_public_key : Bytes → Option Bytes
  pub verify : Bytes → Bytes → Bytes → Bool
  pub serialize_header : PartialHeader → Option Bytes
  pub serialize_transaction : PartialTransaction → Option Bytes
  pub serialize_transactions : List Transaction → Option Bytes
  pub serialize_digest : HashDigest → Option Bytes
  pub serialize_block : Block → Option Bytes
  pub deserialize_block : Bytes → Option Block
  pub serialize_blocks : List Block → Option Bytes
  pub deserialize_blocks : Bytes → Option (List Block)
  pub serialize_ordinal : Ordinal → Option Bytes
  pub deserialize_ordinal : Bytes → Option Ordinal

-- What one call of `SystemTime::now` and one of `thread_rng().gen` give.
pub record Draw : Type 0 where
  pub timestamp : ℕ
  pub nonce : ℕ

-- Ed25519 as documented: a signature is well formed, a public key decodes to itself, and the
-- signature of a message verifies under the key that made it.
pub record SignatureLaws (p : Platform) : Type 0 where
  pub signature_valid : (k m : Bytes) → p.signature_from_bytes (p.sign k m) ≡ some (p.sign k m)
  pub public_key_valid : (k : Bytes) → p.decode_public_key (p.public_key k) ≡ some (p.public_key k)
  pub sign_verifies : (k m : Bytes) → p.verify (p.public_key k) m (p.sign k m) ≡ true

-- bincode 1.3 without a size limit writes every value of these types.
pub record SerializeLaws (p : Platform) : Type 0 where
  pub header_writes : (h : PartialHeader) → (b : Bytes) × (p.serialize_header h ≡ some b)
  pub transaction_writes :
      (t : PartialTransaction) → (b : Bytes) × (p.serialize_transaction t ≡ some b)
  pub transactions_writes :
      (ts : List Transaction) → (b : Bytes) × (p.serialize_transactions ts ≡ some b)
  pub digest_writes : (d : HashDigest) → (b : Bytes) × (p.serialize_digest d ≡ some b)
  pub block_writes : (x : Block) → (b : Bytes) × (p.serialize_block x ≡ some b)
  pub blocks_writes : (xs : List Block) → (b : Bytes) × (p.serialize_blocks xs ≡ some b)

-- `bincode::deserialize` reads back what was written, and leaves trailing bytes alone. A `u128` is
-- 16 bytes.
pub record DeserializeLaws (p : Platform) : Type 0 where
  pub block_reads :
      (x : Block) (b rest : Bytes)
      → p.serialize_block x ≡ some b
      → p.deserialize_block (b ++ rest) ≡ some x
  pub blocks_reads :
      (xs : List Block) (b rest : Bytes)
      → p.serialize_blocks xs ≡ some b
      → p.deserialize_blocks (b ++ rest) ≡ some xs
  pub ordinal_writes :
      (n : Ordinal) → n < 2 ^ 128 → (b : Bytes) × (p.serialize_ordinal n ≡ some b) × (length b ≡ 16)
  pub ordinal_reads :
      (n : Ordinal) (b rest : Bytes)
      → p.serialize_ordinal n ≡ some b
      → p.deserialize_ordinal (b ++ rest) ≡ some n
