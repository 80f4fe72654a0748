-- ===== src/Blockchain/Types.antt =====
-- The data of blockchain/src: digests, addresses, headers, transactions, blocks and errors. An
-- array or a third-party value is the list of its bytes.
use pyrsia.Base.{ℕ, List, Bytes}

-- crypto/hash_algorithm.rs
pub record HashDigest : Type 0 where
  pub multihash : Bytes

-- structures/header.rs
pub record Address : Type 0 where
  pub peer_id : Bytes

-- `u128`
abbrev pub Ordinal : Type 0
Ordinal = ℕ

pub record PartialHeader : Type 0 where
  pub parent_hash : HashDigest
  pub transactions_hash : HashDigest
  pub committer : Address
  pub timestamp : ℕ
  pub ordinal : Ordinal
  pub nonce : ℕ

pub record Header : Type 0 where
  pub parent_hash : HashDigest
  pub transactions_hash : HashDigest
  pub committer : Address
  pub timestamp : ℕ
  pub ordinal : Ordinal
  pub nonce : ℕ
  pub hash : HashDigest

-- signature.rs
pub record Signature : Type 0 where
  pub signature : Bytes

-- structures/transaction.rs
pub data TransactionType : Type 0 where
  create : TransactionType

pub record PartialTransaction : Type 0 where
  pub type_id : TransactionType
  pub submitter : Address
  pub timestamp : ℕ
  pub payload : Bytes
  pub nonce : ℕ

pub record Transaction : Type 0 where
  pub type_id : TransactionType
  pub submitter : Address
  pub timestamp : ℕ
  pub payload : Bytes
  pub nonce : ℕ
  pub hash : HashDigest
  pub signature : Signature

-- structures/block.rs
pub record BlockSignature : Type 0 where
  pub signature : Signature
  pub public_key : Bytes

pub record Block : Type 0 where
  pub header : Header
  pub transactions : List Transaction
  pub block_signature : BlockSignature

-- structures/chain.rs
pub record Chain : Type 0 where
  pub blocks : List Block

-- `bincode::Error`
pub data BincodeError : Type 0 where
  bincode_error : BincodeError

-- error.rs. The errors of other crates that a variant carries are not told apart.
pub data BlockchainError : Type 0 where
  anyhow_error channel_closed serialization_error io_error : BlockchainError
  empty_blockchain invalid_blockchain_argument invalid_blockchain_cmd : BlockchainError
  invalid_blockchain_length : ℕ → BlockchainError
  invalid_blockchain_position : ℕ → ℕ → BlockchainError
  invalid_blockchain_ordinal : Ordinal → BlockchainError
  invalid_key : Bytes → BlockchainError
  lagging_blockchain_data : BlockchainError
  invalid_storage_path : Bytes → BlockchainError
  invalid_topic : BlockchainError
