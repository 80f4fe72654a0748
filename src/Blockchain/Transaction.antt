-- ===== src/Blockchain/Transaction.antt =====
-- structures/transaction.rs: a transaction carries the hash of its other fields and a signature of
-- that hash.
pub mod Laws
use pyrsia.Base.{◌≡◌, true, Option, Bytes}
use pyrsia.Outcome.{Outcome, ok, ok_or, unwrap_result, ◌>>=◌}
use pyrsia.Blockchain.Types.{
  HashDigest, Address, TransactionType, PartialTransaction, Transaction, BincodeError,
  bincode_error,
}
use pyrsia.Blockchain.Platform.{Platform, Draw}
use pyrsia.Blockchain.Crypto.{digest, new_signature}

-- `impl From<Transaction> for PartialTransaction`
unfoldable pub from : Transaction → PartialTransaction
from t = record {
  type_id = t.type_id;
  submitter = t.submitter;
  timestamp = t.timestamp;
  payload = t.payload;
  nonce = t.nonce;
}

unfoldable pub calculate_hash : Platform → PartialTransaction → Outcome BincodeError HashDigest
calculate_hash p incomplete_transaction = do
  bytes ← ok_or (p.serialize_transaction incomplete_transaction) bincode_error
  ok (digest p bytes)

unfoldable pub convert_to_transaction :
    Platform → PartialTransaction → Bytes → Outcome BincodeError Transaction
unfolding calculate_hash
convert_to_transaction p t ed25519_keypair = do
  hash ← calculate_hash p t
  bytes ← ok_or (p.serialize_digest hash) bincode_error
  signature ← new_signature p bytes ed25519_keypair
  ok (record {
    type_id = t.type_id;
    submitter = t.submitter;
    timestamp = t.timestamp;
    payload = t.payload;
    nonce = t.nonce;
    hash = hash;
    signature = signature;
  })

-- `Transaction::new`. The draw is what the clock and the random numbers give to this call.
unfoldable pub new {ℓ} :
    {E : Type ℓ}
    → Platform
    → Draw
    → TransactionType
    → Address
    → Bytes
    → Bytes
    → Outcome E Transaction
unfolding convert_to_transaction
new p draw type_id submitter payload ed25519_keypair =
    let partial_transaction : PartialTransaction = record {
      type_id = type_id;
      submitter = submitter;
      timestamp = draw.timestamp;
      payload = payload;
      nonce = draw.nonce;
    } in
    unwrap_result (convert_to_transaction p partial_transaction ed25519_keypair)

-- The stored hash is the digest of the other fields.
abbrev pub IsHashed : Platform → Transaction → Type 0
IsHashed p t = calculate_hash p (from t) ≡ ok t.hash

-- The signature is one of the stored hash under the given public key.
abbrev pub IsSignedBy : Platform → Bytes → Transaction → Type 0
IsSignedBy p key t =
    (b : Bytes) × (p.serialize_digest t.hash ≡ Option.some b)
    × (p.verify key b t.signature.signature ≡ true)
