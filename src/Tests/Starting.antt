-- ===== src/Tests/Starting.antt =====
-- The theorems on the keypair file and on the dialogue, with files as a function of their paths.
use pyrsia.Base.{ℕ, ◌≡◌, refl, Option, none, some, [], ◌∷◌, ◌++◌, Bytes, codes, arith}
use pyrsia.Outcome.{ok, err}
use pyrsia.Util.Keypair.{io_error, KeyStore, load_ed25519, load_or_generate_ed25519}
use pyrsia.Util.Keypair.Kept.{KeepsKeys, load_or_generate_again}
use pyrsia.Cli.Numerals.{parse_u16}
use pyrsia.Cli.Config.{valid_port}
use pyrsia.Cli.Dialogue.{Input, asks_on, answers, read_interactive_input}
use pyrsia.Cli.Dialogue.Answers.{read_interactive_input_lem}

-- The one file that there may be
abbrev File : Type 0
File = Option Bytes

-- A key is a number, in 64 bytes.
abbrev zeros : ℕ → Bytes
zeros k = k ∷ (codes "000000000000000000000000000000000000000000000000000000000000000")

abbrev first : Bytes → Option ℕ
first [] = none
first (k ∷ s) = some k

abbrev store : KeyStore File ℕ
store = record {
  read = λ path file. file;
  parent = λ path. some (codes "pyrsia");
  create_dir_all = λ dir file. (ok tt, file);
  create = λ path file. (ok tt, some []);
  write_all = λ path bytes file. (ok tt, some bytes);
  encode = zeros;
  decode = first;
}

abbrev keypair_path : Bytes
keypair_path = codes "pyrsia/p2p_keypair.ser"

store-KeepsKeys : KeepsKeys store keypair_path (codes "pyrsia")
store-KeepsKeys = record {
  placed = refl;
  made = λ file. (file, refl);
  created = λ file. (some [], refl);
  written = λ file bytes. (some bytes, refl, refl);
  sized = λ k. refl;
  read_back = λ k. refl;
}

no_keypair : load_ed25519 store keypair_path none ≡ err io_error
unfolding load_ed25519
no_keypair = refl

load_or_generate_again_example :
    (file : File) × (load_or_generate_ed25519 store 5 keypair_path none ≡ (ok 5, file))
    × (load_or_generate_ed25519 store 6 keypair_path file ≡ (ok 5, file))
load_or_generate_again_example =
    load_or_generate_again store keypair_path (codes "pyrsia") store-KeepsKeys none io_error 5 6
      no_keypair

-- A line that cannot be read and one that is no port
abbrev bad_lines : Input
bad_lines = none ∷ some (codes "port") ∷ []

refused_line : valid_port (codes "port") ≡ err (codes "Invalid value for Port Number")
unfolding valid_port parse_u16
refused_line = refl

accepted_default : valid_port (codes "7888") ≡ ok (codes "7888")
unfolding valid_port parse_u16
accepted_default = refl

read_interactive_input_lem_example :
    (read_interactive_input 3 (codes "7888") valid_port (bad_lines ++ (some [] ∷ []))
      ≡ answers (codes "7888") [])
    × (read_interactive_input 3 (codes "7888") valid_port bad_lines ≡ asks_on)
read_interactive_input_lem_example =
    read_interactive_input_lem (codes "7888") valid_port bad_lines [] (codes "7888") [] 3
      (ground arith) (tt, ((codes "Invalid value for Port Number", refused_line), tt))
      accepted_default
