-- ===== src/Blockchain/Block/Laws.antt =====
-- What `Block::new` and `Block::verify` of structures/block.rs promise.
use pyrsia.Base.{◌≡◌, refl, List, Bytes}
use pyrsia.Outcome.{ok}
use pyrsia.Blockchain.Types.{HashDigest, Ordinal, Transaction, Header, Block}
use pyrsia.Blockchain.Platform.{Platform, Draw, SerializeLaws, SignatureLaws}
use pyrsia.Blockchain.Crypto.{digest, address_of, new_signature}
use pyrsia.Blockchain.Header
use pyrsia.Blockchain.Block.{new, verify, Fresh}

module _ (p : Platform) (writes : SerializeLaws p) (signs : SignatureLaws p) where
  -- With keys and serialisers as documented, a new block is made without a panic. It holds the
  -- parent hash, ordinal and transactions that it was given and the signer's address, its hash is
  -- the digest of its header, its root the digest of its transactions, and it verifies.
  pub new_block-Fresh {ℓ} :
      {E : Type ℓ} (draw : Draw) (parent : HashDigest) (n : Ordinal) (ts : List Transaction)
      (key : Bytes)
      → (b : Block) × (new {E = E} p draw parent n ts key ≡ ok b) × Fresh p parent n ts key b
  unfolding new verify new_signature
  new_block-Fresh {E} draw parent n ts key =
      let (bytes, root) = writes.transactions_writes ts in
      let (h, made, fresh) =
        Header.new-Fresh p writes {E = E} draw parent (digest p bytes) (address_of p key) n in
      let (hb, written) = writes.digest_writes h.hash in
      (
        record {
          header = h;
          transactions = ts;
          block_signature = record {
            signature = record { signature = p.sign key hb };
            public_key = p.public_key key;
          };
        },
        rw (root, made, written, signs.signature_valid key hb),
        record {
          parent_is = fresh.parent_is;
          ordinal_is = fresh.ordinal_is;
          transactions_are = refl;
          committer_is = fresh.committer_is;
          hashed = fresh.hashed;
          rooted = (bytes, root, fresh.root_is);
          verified = rw (verify, signs.public_key_valid key, written, signs.sign_verifies key hb);
        },
      )

-- `verify` looks at the stored hash and at the signature only: a block with another header that
-- keeps the hash, and with any transactions, verifies just as well.
pub verify_tampered {ℓ} :
    {E : Type ℓ} (p : Platform) (b : Block) (h : Header) (ts : List Transaction)
    → h.hash ≡ b.header.hash
    → verify {E = E} p (record b { header = h; transactions = ts }) ≡ verify p b
unfolding verify
verify_tampered p b h ts e = rw e
