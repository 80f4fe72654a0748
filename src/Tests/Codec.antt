-- ===== src/Tests/Codec.antt =====
-- A sample serialisation: each number is one element, and each list stands behind its length.
use pyrsia.Base.{
  ℕ, zero, suc, ◌<◌, ◌≤◌, ◌≡◌, refl, ap, Option, none, some, List, [], ◌∷◌, ◌++◌, Bytes, arith,
  length, take, drop, take-append_length, drop-append_length,
}
use mathlib.Core.List.{append_assoc}
use pyrsia.Blockchain.Types.{
  Header, PartialHeader, TransactionType, create, Transaction, PartialTransaction, Block,
}

abbrev pub Reader : Type 0 → Type 0
Reader A = Bytes → Option (A × Bytes)

infixl 5 ◌>>=◌
abbrev ◌>>=◌ : {A B : Type 0} → Reader A → (A → Reader B) → Reader B
◌>>=◌ m f bs = elim (m bs) [ none ↦ none | some (a, rest) ↦ f a rest ]

abbrev pure : {A : Type 0} → A → Reader A
pure a bs = some (a, bs)

-- A writer and a reader that belong together.
abbrev pub Reads : {A : Type 0} → (A → Bytes) → Reader A → Type 0
Reads {A} w r = (a : A) (rest : Bytes) → r (w a ++ rest) ≡ some (a, rest)

abbrev read_number : Reader ℕ
read_number [] = none
read_number (n ∷ bs) = some (n, bs)

abbrev pub write_bytes : Bytes → Bytes
write_bytes bs = length bs ∷ bs

abbrev pub read_bytes : Reader Bytes
read_bytes [] = none
read_bytes (n ∷ bs) = some (take n bs, drop n bs)

pub bytes-Reads : Reads write_bytes read_bytes
bytes-Reads a rest = λ i. some (take-append_length a rest i, drop-append_length a rest i)

module _ {A : Type 0} (w : A → Bytes) where
  pub write_all : List A → Bytes
  write_all [] = []
  write_all (a ∷ as') = w a ++ write_all as'

  abbrev pub write_list : List A → Bytes
  write_list as' = length as' ∷ write_all as'

module _ {A : Type 0} (r : Reader A) where
  pub read_all : ℕ → Reader (List A)
  read_all zero = pure []
  read_all (suc n) = do a ← r; as' ← read_all n; pure (a ∷ as')

  abbrev pub read_list : Reader (List A)
  read_list = do n ← read_number; read_all n

module _ {A : Type 0} (w : A → Bytes) (r : Reader A) (reads : Reads w r) where
  read_all-write_all :
      (as' : List A) (rest : Bytes)
      → read_all r (length as') (write_all w as' ++ rest) ≡ some (as', rest)
  unfolding write_all read_all
  read_all-write_all [] rest = refl
  read_all-write_all (a ∷ as') rest = ground (
    arith,
    append_assoc (w a) (write_all w as') rest,
    reads a (write_all w as' ++ rest),
    read_all-write_all as' rest,
  )

  pub list-Reads : Reads (write_list w) (read_list r)
  list-Reads as' rest = read_all-write_all as' rest

pub write_partial_header : PartialHeader → Bytes
write_partial_header h =
    h.timestamp ∷ h.ordinal ∷ h.nonce ∷ write_bytes h.parent_hash.multihash
    ++ (write_bytes h.transactions_hash.multihash ++ write_bytes h.committer.peer_id)

pub write_header : Header → Bytes
write_header h =
    h.timestamp ∷ h.ordinal ∷ h.nonce ∷ write_bytes h.parent_hash.multihash
    ++ (write_bytes h.transactions_hash.multihash
        ++ (write_bytes h.committer.peer_id ++ write_bytes h.hash.multihash))

pub read_header : Reader Header
read_header = do
  timestamp ← read_number
  ordinal ← read_number
  nonce ← read_number
  parent_hash ← read_bytes
  transactions_hash ← read_bytes
  committer ← read_bytes
  hash ← read_bytes
  pure (record {
    parent_hash = record { multihash = parent_hash };
    transactions_hash = record { multihash = transactions_hash };
    committer = record { peer_id = committer };
    timestamp = timestamp;
    ordinal = ordinal;
    nonce = nonce;
    hash = record { multihash = hash };
  })

pub header-Reads : Reads write_header read_header
unfolding write_header read_header
header-Reads h rest = simp (append_assoc, take-append_length, drop-append_length)

pub write_partial_transaction : PartialTransaction → Bytes
write_partial_transaction t =
    t.timestamp ∷ t.nonce ∷ write_bytes t.submitter.peer_id ++ write_bytes t.payload

pub write_transaction : Transaction → Bytes
write_transaction t =
    t.timestamp ∷ t.nonce ∷ write_bytes t.submitter.peer_id
    ++ (write_bytes t.payload
        ++ (write_bytes t.hash.multihash ++ write_bytes t.signature.signature))

pub read_transaction : Reader Transaction
read_transaction = do
  timestamp ← read_number
  nonce ← read_number
  submitter ← read_bytes
  payload ← read_bytes
  hash ← read_bytes
  signature ← read_bytes
  pure (record {
    type_id = create;
    submitter = record { peer_id = submitter };
    timestamp = timestamp;
    payload = payload;
    nonce = nonce;
    hash = record { multihash = hash };
    signature = record { signature = signature };
  })

only_create : (t : TransactionType) → create ≡ t
only_create create = refl

pub transaction-Reads : Reads write_transaction read_transaction
unfolding write_transaction read_transaction
transaction-Reads t rest =
    simp (append_assoc, take-append_length, drop-append_length)
      (ap (λ c. some (record t { type_id = c }, rest)) (only_create t.type_id))

pub write_block : Block → Bytes
write_block b =
    write_header b.header
    ++ (write_list write_transaction b.transactions
        ++ (write_bytes b.block_signature.signature.signature
            ++ write_bytes b.block_signature.public_key))

pub read_block : Reader Block
read_block = do
  header ← read_header
  transactions ← read_list read_transaction
  signature ← read_bytes
  public_key ← read_bytes
  pure (record {
    header = header;
    transactions = transactions;
    block_signature = record {
      signature = record { signature = signature };
      public_key = public_key;
    };
  })

pub block-Reads : Reads write_block read_block
unfolding write_block read_block
block-Reads b rest =
    let sig = write_bytes b.block_signature.signature.signature in
    let key = write_bytes b.block_signature.public_key in
    let after = sig ++ (key ++ rest) in
    let listed =
      list-Reads write_transaction read_transaction transaction-Reads b.transactions after in
    let head = header-Reads b.header (write_list write_transaction b.transactions ++ after) in
    simp append_assoc (
      ground (
        arith,
        head,
        listed,
        bytes-Reads b.block_signature.signature.signature (key ++ rest),
        bytes-Reads b.block_signature.public_key rest,
      ))

pub write_blocks : List Block → Bytes
write_blocks = write_list write_block

pub read_blocks : Reader (List Block)
read_blocks = read_list read_block

pub blocks-Reads : Reads write_blocks read_blocks
unfolding write_blocks read_blocks
blocks-Reads = list-Reads write_block read_block block-Reads

-- A block without transactions
abbrev pub single : Block
single = record {
  header = record {
    parent_hash = record { multihash = 1 ∷ [] };
    transactions_hash = record { multihash = 2 ∷ [] };
    committer = record { peer_id = 3 ∷ [] };
    timestamp = 100;
    ordinal = 0;
    nonce = 4;
    hash = record { multihash = 5 ∷ [] };
  };
  transactions = [];
  block_signature = record { signature = record { signature = 6 ∷ [] }; public_key = 7 ∷ [] };
}

pub single_small :
    (0 < length (write_blocks (single ∷ []))) × (length (write_blocks (single ∷ [])) ≤ 1000)
unfolding write_blocks write_block write_all write_header
single_small = (ground arith, ground arith)
