-- ===== src/Tests/Sample.antt =====
-- A platform, a disk and a setting that keep their documented promises. The digest is a weighted
-- sum, and a signature is the sum of the weights of key and message.
use pyrsia.Base.{
  ℕ, ◌<◌, ◌≤◌, ◌≡◌, ap, length, ◌+◌, ◌*◌, refl, Bool, true, false, Option, none, some, [], ◌∷◌,
  Bytes, arith, ◌==◌, eq→==,
}
use pyrsia.Blockchain.Types.{Ordinal}
use pyrsia.Blockchain.Platform.{Platform, SerializeLaws, DeserializeLaws, SignatureLaws}
use pyrsia.Blockchain.Disk.{Directory, FileSystem, IsReliable, absent}
use pyrsia.Blockchain.Blockchain.{Setting}
use pyrsia.Blockchain.Blockchain.Commit.{IsSound}
use pyrsia.Tests.Codec.{
  Reader, write_bytes, write_partial_header, write_partial_transaction, write_transaction,
  write_list, write_block, read_block, block-Reads, single, single_small, write_blocks, read_blocks,
  blocks-Reads,
}

weight : Bytes → ℕ
weight [] = 7
weight (x ∷ xs) = x + 31 * weight xs

signed_by : Bytes → Bytes → Bytes → Bool
signed_by key m [] = false
signed_by key m (s ∷ rest) = s == weight key + weight m

write_ordinal : Ordinal → Bytes
write_ordinal n = n ∷ 0 ∷ 0 ∷ 0 ∷ 0 ∷ 0 ∷ 0 ∷ 0 ∷ 0 ∷ 0 ∷ 0 ∷ 0 ∷ 0 ∷ 0 ∷ 0 ∷ 0 ∷ []

read_ordinal : Bytes → Option Ordinal
read_ordinal [] = none
read_ordinal (n ∷ rest) = some n

abbrev value_of : {A : Type 0} → Reader A → Bytes → Option A
value_of r bytes = elim (r bytes) [ none ↦ none | some (a, rest) ↦ some a ]

pub platform : Platform
unfolding weight signed_by write_ordinal read_ordinal
platform = record {
  keccak256 = λ m. weight m ∷ [];
  public_key = λ k. k;
  peer_id_of = λ k. k;
  sign = λ k m. (weight k + weight m) ∷ [];
  signature_from_bytes = some;
  decode_public_key = some;
  verify = signed_by;
  serialize_header = λ h. some (write_partial_header h);
  serialize_transaction = λ t. some (write_partial_transaction t);
  serialize_transactions = λ ts. some (write_list write_transaction ts);
  serialize_digest = λ d. some (write_bytes d.multihash);
  serialize_block = λ b. some (write_block b);
  deserialize_block = value_of read_block;
  serialize_blocks = λ bs. some (write_blocks bs);
  deserialize_blocks = value_of read_blocks;
  serialize_ordinal = λ n. some (write_ordinal n);
  deserialize_ordinal = read_ordinal;
}

pub signs : SignatureLaws platform
unfolding platform signed_by
signs = record {
  signature_valid = λ k m. refl;
  public_key_valid = λ k. refl;
  sign_verifies = λ k m. eq→== (weight k + weight m) (weight k + weight m) refl;
}

pub writes : SerializeLaws platform
unfolding platform
writes = record {
  header_writes = λ h. (write_partial_header h, refl);
  transaction_writes = λ t. (write_partial_transaction t, refl);
  transactions_writes = λ ts. (write_list write_transaction ts, refl);
  digest_writes = λ d. (write_bytes d.multihash, refl);
  block_writes = λ b. (write_block b, refl);
  blocks_writes = λ bs. (write_blocks bs, refl);
}

pub reads : DeserializeLaws platform
unfolding platform write_ordinal read_ordinal
reads = record {
  block_reads = λ x b rest e. ground (arith, block-Reads x rest);
  blocks_reads = λ xs b rest e. ground (arith, blocks-Reads xs rest);
  ordinal_writes = λ n h. (write_ordinal n, refl, refl);
  ordinal_reads = λ n b rest e. ground arith;
}

pub file_system : FileSystem
file_system = record { opens = λ _. true; fails = λ _ _. none; negative = λ _. absent }

pub disk : IsReliable file_system
unfolding file_system
disk = record { always_opens = λ _. refl; never_fails = λ _ _. refl }

abbrev pub setting : Setting
setting = record {
  platform = platform;
  file_system = file_system;
  keypair = 5 ∷ 3 ∷ [];
  transaction_draw = record { timestamp = 100; nonce = 11 };
  block_draw = record { timestamp = 101; nonce = 12 };
}

pub sound : IsSound setting
sound = record { writes = writes; reads = reads; signs = signs; disk = disk }

abbrev pub empty_directory : Directory
empty_directory = λ _. absent

pub single_fits :
    (bytes : Bytes)
    → platform.serialize_blocks (single ∷ []) ≡ some bytes
    → (0 < length bytes) × (length bytes ≤ 10 * 1024 * 1024)
unfolding platform
single_fits bytes e =
    let same : write_blocks (single ∷ []) ≡ bytes = ground arith in
    omega (arith, single_small, ap (λ (l : Bytes). length l) same)
