-- ===== src/Util/Keypair.antt =====
-- src/util/keypair_util.rs: the keypair of a node, in a file.
pub mod Kept
use pyrsia.Base.{ℕ, Bool, Option, none, some, Bytes, length, ◌==◌, if◌then◌else◌}
use pyrsia.Outcome.{Outcome, ok, err, panicked, unwrap}
use pyrsia.Exec.{Exec, lift, pure, gets, ◌>>=◌, ◌>>◌}

-- `io::Error`, as far as it is told apart
pub data KeyError : Type 0 where
  invalid_data io_error : KeyError

-- What the module calls of std::fs on files `F`, and of ed25519 on keypairs `K`. `read` has the bytes of
-- a file, `None` where opening it, its metadata or reading it fails.
pub record KeyStore (F K : Type 0) : Type 0 where
  pub read : Bytes → F → Option Bytes
  pub parent : Bytes → Option Bytes
  pub create_dir_all : Bytes → Exec F KeyError (Unit {0})
  pub create : Bytes → Exec F KeyError (Unit {0})
  pub write_all : Bytes → Bytes → Exec F KeyError (Unit {0})
  pub encode : K → Bytes
  pub decode : Bytes → Option K

module _ {F K : Type 0} (store : KeyStore F K) where
  -- `decode`, where it succeeds
  abbrev decoded : Option K → Outcome KeyError K
  decoded none = err invalid_data
  decoded (some keypair) = ok keypair

  -- `load_ed25519`
  unfoldable pub load_ed25519 : Bytes → F → Outcome KeyError K
  load_ed25519 keypair_path files = elim (store.read keypair_path files) [
    | none ↦ err io_error
    | some buffer ↦ if length buffer == 64 then decoded (store.decode buffer) else err invalid_data
  ]

  -- `save_ed25519`
  unfoldable pub save_ed25519 : K → Bytes → Exec F KeyError (Unit {0})
  save_ed25519 keypair keypair_path = do
    dir ← lift (unwrap (store.parent keypair_path))
    store.create_dir_all dir
    store.create keypair_path
    store.write_all keypair_path (store.encode keypair)

  -- `load_or_generate_ed25519`; `fresh` is what `generate` gives.
  unfoldable pub load_or_generate_ed25519 : K → Bytes → Exec F KeyError K
  load_or_generate_ed25519 fresh keypair_path files = elim (load_ed25519 keypair_path files) [
    | ok keypair ↦ (ok keypair, files)
    | panicked ↦ (panicked, files)
    | err e ↦
        let (saved, files') = save_ed25519 fresh keypair_path files in
        elim saved [
          | ok done ↦ (ok fresh, files')
          | err e' ↦ (ok fresh, files')
          | panicked ↦ (panicked, files')
        ]
  ]
