-- ===== src/Blockchain/Crypto.antt =====
-- crypto/hash_algorithm.rs, signature.rs and the conversions to `Address` of structures/header.rs.
use pyrsia.Base.{Bytes}
use pyrsia.Outcome.{Outcome, ok, unwrap, ◌>>=◌}
use pyrsia.Blockchain.Types.{HashDigest, Address, Signature}
use pyrsia.Blockchain.Platform.{Platform}

-- `HashDigest::new`
unfoldable pub digest : Platform → Bytes → HashDigest
digest p msg = record { multihash = p.keccak256 msg }

-- `Address::from(identity::PublicKey)`, of the key pair's public half
unfoldable pub address_of : Platform → Bytes → Address
address_of p keypair = record { peer_id = p.peer_id_of (p.public_key keypair) }

-- `Signature::new`
unfoldable pub new_signature {ℓ} : {E : Type ℓ} → Platform → Bytes → Bytes → Outcome E Signature
new_signature p msg keypair = do
  sig ← unwrap (p.signature_from_bytes (p.sign keypair msg))
  ok (record { signature = sig })
