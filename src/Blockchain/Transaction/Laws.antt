-- ===== src/Blockchain/Transaction/Laws.antt =====
-- What `Transaction::new` of structures/transaction.rs promises.
use pyrsia.Base.{◌≡◌, refl, Bytes}
use pyrsia.Outcome.{ok}
use pyrsia.Blockchain.Types.{HashDigest, Address, TransactionType, PartialTransaction, Transaction}
use pyrsia.Blockchain.Platform.{Platform, Draw, SerializeLaws, SignatureLaws}
use pyrsia.Blockchain.Crypto.{digest, new_signature}
use pyrsia.Blockchain.Transaction.{from, calculate_hash, new, IsHashed, IsSignedBy}

pub record Fresh (p : Platform) (type_id : TransactionType) (who : Address) (payload key : Bytes)
    (t : Transaction) : Type 0 where
  pub type_is : t.type_id ≡ type_id
  pub submitter_is : t.submitter ≡ who
  pub payload_is : t.payload ≡ payload
  pub hashed : IsHashed p t
  pub signed : IsSignedBy p (p.public_key key) t

module _ (p : Platform) (writes : SerializeLaws p) (signs : SignatureLaws p) where
  calculate_hash-total : (t : PartialTransaction) → (d : HashDigest) × (calculate_hash p t ≡ ok d)
  unfolding calculate_hash
  calculate_hash-total t = let (b, e) = writes.transaction_writes t in (digest p b, rw e)

  -- With keys and serialisers as documented, a new transaction is made without a panic. It holds
  -- the type, submitter and payload that it was given, its hash is the digest of its other fields,
  -- and its signature verifies under the signer's public key.
  pub new_transaction-Fresh {ℓ} :
      {E : Type ℓ} (draw : Draw) (type_id : TransactionType) (who : Address) (payload key : Bytes)
      → (t : Transaction) × (new {E = E} p draw type_id who payload key ≡ ok t)
        × Fresh p type_id who payload key t
  unfolding new from new_signature
  new_transaction-Fresh draw type_id who payload key =
      let partial : PartialTransaction = record {
        type_id = type_id;
        submitter = who;
        timestamp = draw.timestamp;
        payload = payload;
        nonce = draw.nonce;
      } in
      let (d, hashed) = calculate_hash-total partial in
      let (b, written) = writes.digest_writes d in
      (
        record {
          type_id = type_id;
          submitter = who;
          timestamp = draw.timestamp;
          payload = payload;
          nonce = draw.nonce;
          hash = d;
          signature = record { signature = p.sign key b };
        },
        rw (hashed, written, signs.signature_valid key b),
        record {
          type_is = refl;
          submitter_is = refl;
          payload_is = refl;
          hashed = hashed;
          signed = (b, written, signs.sign_verifies key b);
        },
      )
