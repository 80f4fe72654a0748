-- ===== src/Util/Keypair/Kept.antt =====
-- The identity of a node over its starts, of src/util/keypair_util.rs.
use pyrsia.Base.{◌≡◌, some, Bytes, length, arith}
use pyrsia.Outcome.{ok, err}
use pyrsia.Util.Keypair.{KeyError, KeyStore, load_ed25519, save_ed25519, load_or_generate_ed25519}

-- Files that are written are read as they were written, keys have 64 bytes and are read back, and the
-- path of the keypair stands in a directory.
pub record KeepsKeys {F K : Type 0} (store : KeyStore F K) (path dir : Bytes) : Type 0 where
  pub placed : store.parent path ≡ some dir
  pub made : (files : F) → (files' : F) × (store.create_dir_all dir files ≡ (ok tt, files'))
  pub created : (files : F) → (files' : F) × (store.create path files ≡ (ok tt, files'))
  pub written :
      (files : F) (bytes : Bytes)
      → (files' : F) × (store.write_all path bytes files ≡ (ok tt, files'))
        × (store.read path files' ≡ some bytes)
  pub sized : (keypair : K) → length (store.encode keypair) ≡ 64
  pub read_back : (keypair : K) → store.decode (store.encode keypair) ≡ some keypair

module _ {F K : Type 0} (store : KeyStore F K) (path dir : Bytes)
    (keeps : KeepsKeys store path dir) where
  load-written :
      (files : F) (keypair : K)
      → store.read path files ≡ some (store.encode keypair)
      → load_ed25519 store path files ≡ ok keypair
  unfolding load_ed25519
  load-written files keypair h = ground (arith, h, keeps.sized keypair, keeps.read_back keypair)

  save-load :
      (files : F) (keypair : K)
      → (files' : F) × (save_ed25519 store keypair path files ≡ (ok tt, files'))
        × (load_ed25519 store path files' ≡ ok keypair)
  unfolding save_ed25519
  save-load files keypair =
      let (files1, e1) = keeps.made files in
      let (files2, e2) = keeps.created files1 in
      let (files3, e3, back) = keeps.written files2 (store.encode keypair) in
      (files3, ground (arith, keeps.placed, e1, e2, e3), load-written files3 keypair back)

  loads :
      (files : F) (fresh keypair : K)
      → load_ed25519 store path files ≡ ok keypair
      → load_or_generate_ed25519 store fresh path files ≡ (ok keypair, files)
  unfolding load_or_generate_ed25519
  loads files fresh keypair h = ground (arith, h)

  -- When the directory and the file can be made and written, and files and keys are read back as they
  -- were written: a start that cannot load a keypair, for whatever reason, takes the fresh one and
  -- writes it over what was there, and the next start takes the same, whatever it would have
  -- generated, and changes nothing.
  pub load_or_generate_again :
      (files : F) (e : KeyError) (fresh other : K)
      → load_ed25519 store path files ≡ err e
      → (files' : F) × (load_or_generate_ed25519 store fresh path files ≡ (ok fresh, files'))
        × (load_or_generate_ed25519 store other path files' ≡ (ok fresh, files'))
  unfolding load_or_generate_ed25519
  load_or_generate_again files e fresh other h =
      let (files', saved, loaded) = save-load files fresh in
      (files', ground (arith, h, saved), loads files' other fresh loaded)
