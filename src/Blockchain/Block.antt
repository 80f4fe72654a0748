-- ===== src/Blockchain/Block.antt =====
-- structures/block.rs: how a block is made, verified and read.
pub mod Laws
use pyrsia.Base.{◌≡◌, Bool, true, false, none, some, List, map, Bytes}
use pyrsia.Outcome.{Outcome, ok, unwrap, ◌>>=◌}
use pyrsia.Blockchain.Types.{HashDigest, Ordinal, Transaction, Block}
use pyrsia.Blockchain.Platform.{Platform, Draw}
use pyrsia.Blockchain.Crypto.{digest, address_of, new_signature}
use pyrsia.Blockchain.Header

-- `Block::new`
unfoldable pub new {ℓ} :
    {E : Type ℓ}
    → Platform
    → Draw
    → HashDigest
    → Ordinal
    → List Transaction
    → Bytes
    → Outcome E Block
new p draw parent_hash ordinal transactions signing_key = do
  bytes ← unwrap (p.serialize_transactions transactions)
  let transaction_root = digest p bytes
  header ← Header.new p draw parent_hash transaction_root (address_of p signing_key) ordinal
  hash_bytes ← unwrap (p.serialize_digest header.hash)
  signature ← new_signature p hash_bytes signing_key
  ok (record {
    header = header;
    transactions = transactions;
    block_signature = record { signature = signature; public_key = p.public_key signing_key };
  })

-- `Block::verify`
unfoldable pub verify {ℓ} : {E : Type ℓ} → Platform → Block → Outcome E Bool
verify p b = elim (p.decode_public_key b.block_signature.public_key) [
  | some pub_key ↦ (do
    bytes ← unwrap (p.serialize_digest b.header.hash)
    ok (p.verify pub_key bytes b.block_signature.signature.signature))
  | none ↦ ok false
]

-- `Block::fetch_payload`
unfoldable pub fetch_payload : Block → List Bytes
fetch_payload b = map (λ t. t.payload) b.transactions

-- The header's root is the digest of the block's transactions.
abbrev pub IsRooted : Platform → Block → Type 0
IsRooted p b =
    (bytes : Bytes) × (p.serialize_transactions b.transactions ≡ some bytes)
    × (b.header.transactions_hash ≡ digest p bytes)

-- What a new block holds.
pub record Fresh (p : Platform) (parent : HashDigest) (n : Ordinal) (ts : List Transaction)
    (key : Bytes) (b : Block) : Type 0 where
  pub parent_is : b.header.parent_hash ≡ parent
  pub ordinal_is : b.header.ordinal ≡ n
  pub transactions_are : b.transactions ≡ ts
  pub committer_is : b.header.committer ≡ address_of p key
  pub hashed : Header.IsHashed p b.header
  pub rooted : IsRooted p b
  pub verified : verify {E = Unit {0}} p b ≡ ok true
