-- ===== src/Blockchain/Header.antt =====
-- structures/header.rs: a header carries the hash of its other fields.
use pyrsia.Base.{◌≡◌, refl}
use pyrsia.Outcome.{Outcome, ok, ok_or, unwrap_result, ◌>>=◌}
use pyrsia.Blockchain.Types.{
  HashDigest, Address, Ordinal, PartialHeader, Header, BincodeError, bincode_error,
}
use pyrsia.Blockchain.Platform.{Platform, Draw, SerializeLaws}
use pyrsia.Blockchain.Crypto.{digest}

-- `impl From<Header> for PartialHeader`
unfoldable pub from : Header → PartialHeader
from h = record {
  parent_hash = h.parent_hash;
  transactions_hash = h.transactions_hash;
  committer = h.committer;
  timestamp = h.timestamp;
  ordinal = h.ordinal;
  nonce = h.nonce;
}

unfoldable pub calculate_hash : Platform → PartialHeader → Outcome BincodeError HashDigest
calculate_hash p incomplete_header = do
  bytes ← ok_or (p.serialize_header incomplete_header) bincode_error
  ok (digest p bytes)

-- `Header::new`. The draw is what the clock and the random numbers give to this call.
unfoldable pub new {ℓ} :
    {E : Type ℓ} → Platform → Draw → HashDigest → HashDigest → Address → Ordinal → Outcome E Header
unfolding calculate_hash
new p draw parent_hash transactions_hash committer ordinal = do
  let partial : PartialHeader = record {
    parent_hash = parent_hash;
    transactions_hash = transactions_hash;
    committer = committer;
    timestamp = draw.timestamp;
    ordinal = ordinal;
    nonce = draw.nonce;
  }
  hash ← unwrap_result (calculate_hash p partial)
  ok (record {
    parent_hash = partial.parent_hash;
    transactions_hash = partial.transactions_hash;
    committer = partial.committer;
    timestamp = partial.timestamp;
    ordinal = partial.ordinal;
    nonce = partial.nonce;
    hash = hash;
  })

-- The stored hash is the digest of the header's other fields.
abbrev pub IsHashed : Platform → Header → Type 0
IsHashed p h = calculate_hash p (from h) ≡ ok h.hash

-- What a new header holds.
pub record Fresh (p : Platform) (parent root : HashDigest) (who : Address) (n : Ordinal)
    (h : Header) : Type 0 where
  pub parent_is : h.parent_hash ≡ parent
  pub root_is : h.transactions_hash ≡ root
  pub committer_is : h.committer ≡ who
  pub ordinal_is : h.ordinal ≡ n
  pub hashed : IsHashed p h

module _ (p : Platform) (laws : SerializeLaws p) where
  pub calculate_hash-total : (h : PartialHeader) → (d : HashDigest) × (calculate_hash p h ≡ ok d)
  unfolding calculate_hash
  calculate_hash-total h = let (b, e) = laws.header_writes h in (digest p b, rw e)

  -- `Header::new` does not panic, and gives a hashed header with the arguments as fields.
  pub new-Fresh {ℓ} :
      {E : Type ℓ} (draw : Draw) (parent root : HashDigest) (who : Address) (n : Ordinal)
      → (h : Header) × (new {E = E} p draw parent root who n ≡ ok h) × Fresh p parent root who n h
  unfolding new from
  new-Fresh draw parent root who n =
      let partial : PartialHeader = record {
        parent_hash = parent;
        transactions_hash = root;
        committer = who;
        timestamp = draw.timestamp;
        ordinal = n;
        nonce = draw.nonce;
      } in
      let (d, e) = calculate_hash-total partial in
      (
        record {
          parent_hash = parent;
          transactions_hash = root;
          committer = who;
          timestamp = draw.timestamp;
          ordinal = n;
          nonce = draw.nonce;
          hash = d;
        },
        rw e,
        record {
          parent_is = refl;
          root_is = refl;
          committer_is = refl;
          ordinal_is = refl;
          hashed = e;
        },
      )
