-- ===== src/Cli/Config.antt =====
-- src/cli_commands/config.rs: the configuration of the command line, in a file that confy reads and
-- writes.
pub mod Checks
pub mod Editing
use pyrsia.Base.{
  ℕ, ◌-◌, Bool, true, false, not, ◌&&◌, ◌||◌, Option, none, some, List, [], ◌∷◌, ◌++◌, Bytes, codes,
  length, ltb, leb, ◌==◌, if◌then◌else◌,
}
use pyrsia.Outcome
use pyrsia.Outcome.{Outcome, ok, err, panicked}
use pyrsia.Exec.{Exec, pure, lift, gets, ◌>>=◌, ◌>>◌}
use pyrsia.TransparencyLog.Database.{bytes_eq}
use pyrsia.BuildService.Names.{dot, split}
use pyrsia.Cli.DiskSpace.{disk_space_captures}
use pyrsia.Cli.Numerals.{scan, parse_u16, to_string}

pub record CliConfig : Type 0 where
  pub host : Bytes
  pub port : Bytes
  pub disk_allocated : Bytes

-- `CliConfig::default`
abbrev pub default_config : CliConfig
default_config = record {
  host = codes "localhost";
  port = codes "7888";
  disk_allocated = codes "10 GB";
}

-- `CliConfig::eq`
unfoldable pub config_eq : CliConfig → CliConfig → Bool
config_eq c other =
    bytes_eq c.host other.host
    && bytes_eq c.port other.port
    && bytes_eq c.disk_allocated other.disk_allocated

-- The errors of other crates are told apart by the crate; the lines are those that are printed.
pub data ConfigError : Type 0 where
  confy_error io_error : ConfigError
  invalid_config : List Bytes → ConfigError

-- What the module calls of confy and of std::fs, on files of their own
pub record Confy (F : Type 0) : Type 0 where
  pub get_configuration_file_path : Outcome ConfigError Bytes
  pub load_path : Bytes → Exec F ConfigError CliConfig
  pub store_path : Bytes → CliConfig → Exec F ConfigError (Unit {0})
  pub exists : Bytes → F → Bool
  pub remove_file : Bytes → Exec F ConfigError (Unit {0})

-- The regular expression HOSTNAME_REGEX
pub record Patterns : Type 0 where
  pub hostname_is_match : Bytes → Bool

abbrev is_there : {A : Type 0} → Option A → Bool
is_there none = false
is_there (some a) = true

abbrev pub is_empty : Bytes → Bool
is_empty [] = true
is_empty (b ∷ s) = false

-- One of the four numbers that `parse::<Ipv4Addr>` reads: three digits at most, no zero in front.
unfoldable pub is_octet : Bytes → Bool
unfolding scan
is_octet [] = false
is_octet (c ∷ s) = elim (scan (c ∷ s) 0) [
  | none ↦ false
  | some n ↦ ltb n 256 && leb (length s) 2 && (not (c == b'0') || is_empty s)
]

-- `valid_ipv4_address`
unfoldable pub valid_ipv4_address : Bytes → Bool
valid_ipv4_address input = elim (split dot input) [
  | a ∷ b ∷ c ∷ d ∷ [] ↦ is_octet a && is_octet b && is_octet c && is_octet d
  | _ ↦ false
]

-- `valid_hostname`
unfoldable pub valid_hostname : Patterns → Bytes → Bool
valid_hostname patterns input =
    if is_empty input || ltb 253 (length input) then false else patterns.hostname_is_match input

-- `valid_host_name`
unfoldable pub valid_host_name : Patterns → Bytes → Outcome Bytes Bytes
valid_host_name patterns input =
    if valid_ipv4_address input || valid_hostname patterns input
    then ok input
    else err (codes "Invalid value for Hostname")

-- `valid_port`
unfoldable pub valid_port : Bytes → Outcome Bytes Bytes
valid_port input = elim (parse_u16 input) [
  | some n ↦ ok input
  | none ↦ err (codes "Invalid value for Port Number")
]

abbrev pub disk_space_num_max : ℕ
disk_space_num_max = 4096

abbrev pub invalid_disk : Outcome Bytes Bytes
invalid_disk = err (codes "Invalid value for Disk Allocation")

-- The groups of a match, in `valid_disk_space`
unfoldable pub disk_space_of : Bytes × Bytes → Outcome Bytes Bytes
disk_space_of (num, metric) = elim (parse_u16 num) [
  | none ↦ invalid_disk
  | some disk_space_num ↦
      if ltb 0 disk_space_num && leb disk_space_num disk_space_num_max
      then ok (to_string disk_space_num ++ (b' ' ∷ metric))
      else invalid_disk
]

-- `valid_disk_space`
unfoldable pub valid_disk_space : Bytes → Outcome Bytes Bytes
unfolding disk_space_captures
valid_disk_space input =
    if is_there (disk_space_captures input)
    then Outcome.◌>>=◌ (Outcome.unwrap (disk_space_captures input)) disk_space_of
    else invalid_disk

-- One `if let Some(validation_result)` of `config_edit`, on the configuration and the errors so far
unfoldable pub edit_field :
    (Bytes → Outcome Bytes Bytes)
    → (CliConfig → Bytes → CliConfig)
    → Option Bytes
    → CliConfig × List Bytes
    → Outcome ConfigError (CliConfig × List Bytes)
edit_field valid assign none (cli_config, errors) = ok (cli_config, errors)
edit_field valid assign (some value) (cli_config, errors) = elim (valid value) [
  | ok checked ↦ ok (assign cli_config checked, errors)
  | err description ↦ ok (cli_config, errors ++ description ∷ [])
  | panicked ↦ panicked
]

abbrev pub set_host : CliConfig → Bytes → CliConfig
set_host c v = record c { host = v }

abbrev pub set_port : CliConfig → Bytes → CliConfig
set_port c v = record c { port = v }

abbrev pub set_disk : CliConfig → Bytes → CliConfig
set_disk c v = record c { disk_allocated = v }

-- The fields that `add_config` takes over
unfoldable pub overlay : CliConfig → CliConfig → CliConfig
overlay new_cfg cfg = record {
  host = if is_empty new_cfg.host then cfg.host else new_cfg.host;
  port = if is_empty new_cfg.port then cfg.port else new_cfg.port;
  disk_allocated =
      if is_empty new_cfg.disk_allocated then cfg.disk_allocated else new_cfg.disk_allocated;
}

module _ {F : Type 0} (confy : Confy F) where
  -- `get_config_path`, outside the tests
  unfoldable pub get_config_path : Outcome ConfigError Bytes
  get_config_path = confy.get_configuration_file_path

  -- `get_config_file_path`
  unfoldable pub get_config_file_path : Outcome ConfigError Bytes
  get_config_file_path = confy.get_configuration_file_path

  -- `get_config`
  unfoldable pub get_config : Exec F ConfigError CliConfig
  unfolding get_config_path
  get_config = do config_path ← lift get_config_path; confy.load_path config_path

  -- `add_config`
  unfoldable pub add_config : CliConfig → Exec F ConfigError (Unit {0})
  unfolding get_config_path
  add_config new_cfg = do
    config_path ← lift get_config_path
    cfg ← confy.load_path config_path
    confy.store_path config_path (overlay new_cfg cfg)

  -- `config_remove`
  unfoldable pub config_remove : Exec F ConfigError (Unit {0})
  config_remove = do
    cfg_patch ← lift confy.get_configuration_file_path
    there ← gets (confy.exists cfg_patch)
    if there then confy.remove_file cfg_patch else pure tt

  -- The end of `config_edit`
  unfoldable pub finish_edit : CliConfig × List Bytes → Exec F ConfigError (Unit {0})
  finish_edit (cli_config, []) = add_config cli_config
  finish_edit (cli_config, e ∷ errors) = lift (err (invalid_config (e ∷ errors)))

  -- `config_edit`
  unfoldable pub config_edit :
      Patterns → Option Bytes → Option Bytes → Option Bytes → Exec F ConfigError (Unit {0})
  config_edit patterns host_name port disk_space = do
    cli_config ← get_config
    hosted ← lift (edit_field (valid_host_name patterns) set_host host_name (cli_config, []))
    ported ← lift (edit_field valid_port set_port port hosted)
    edited ← lift (edit_field valid_disk_space set_disk disk_space ported)
    finish_edit edited
