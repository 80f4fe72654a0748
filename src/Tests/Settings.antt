-- ===== src/Tests/Settings.antt =====
-- The theorems on the configuration, at a file in memory and the two expressions as functions.
use pyrsia.Base.{
  ℕ, ◌^◌, ◌<◌, ◌≤◌, ◌≡◌, refl, ◌↔◌, inl, inr, true, false, Option, none, some, ◌∷◌, ◌++◌, Bytes,
  codes, arith,
}
use pyrsia.Outcome.{ok, err}
use pyrsia.TransparencyLog.Database.{bytes_eq}
use pyrsia.Cli.Numerals.{parse_u16, to_string}
use pyrsia.Cli.Numerals.Reading.{IsNumeralOf}
use pyrsia.Cli.DiskSpace.{is_white, disk_space_captures, take_amount}
use pyrsia.Cli.Config.{
  CliConfig, default_config, Confy, Patterns, valid_port, valid_disk_space, disk_space_of,
  get_config, config_edit,
}
use pyrsia.Cli.Config.Checks.{valid_port_iff, valid_disk_space_lem}
use pyrsia.Cli.Config.Editing.{KeepsFile, config_edit-get_config}

abbrev patterns : Patterns
patterns = record { hostname_is_match = λ s. true }

-- A file that is not there is made with the default configuration when it is loaded.
abbrev confy : Confy (Option CliConfig)
confy = record {
  get_configuration_file_path = ok (codes "pyrsia-cli.toml");
  load_path = λ path files. elim files [
    | none ↦ (ok default_config, some default_config)
    | some c ↦ (ok c, some c)
  ];
  store_path = λ path c files. (ok tt, some c);
  exists = λ path files. elim files [ none ↦ false | some c ↦ true ];
  remove_file = λ path files. (ok tt, none);
}

loaded_again :
    (files files' : Option CliConfig) (c : CliConfig)
    → confy.load_path (codes "pyrsia-cli.toml") files ≡ (ok c, files')
    → confy.load_path (codes "pyrsia-cli.toml") files' ≡ (ok c, files')
loaded_again none files' c h = ground arith
loaded_again (some d) files' c h = ground arith

confy-KeepsFile : KeepsFile confy (codes "pyrsia-cli.toml")
confy-KeepsFile = record {
  located = refl;
  loaded = λ files files' c h. loaded_again files files' c h;
  stored = λ files c. (some c, refl, refl);
}

valid_port_iff_example :
    (valid_port (codes "+80") ≡ ok (codes "+80"))
    ↔ ((codes "+80" ≡ codes "+80") × ((n : ℕ) × IsNumeralOf n (codes "+80") × (n < 2 ^ 16)))
valid_port_iff_example = valid_port_iff (codes "+80") (codes "+80")

-- A port past the last one, and one that is no number.
refused_ports :
    (valid_port (codes "65536") ≡ err (codes "Invalid value for Port Number"))
    × (valid_port (codes "-1") ≡ err (codes "Invalid value for Port Number"))
unfolding valid_port parse_u16
refused_ports = (refl, refl)

accepted_disk : valid_disk_space (codes "0010 GB") ≡ ok (codes "10 GB")
unfolding disk_space_captures is_white take_amount valid_disk_space disk_space_of parse_u16
    to_string bytes_eq
accepted_disk = refl

-- The test of config.rs: without a blank it is refused.
refused_disk : valid_disk_space (codes "100GB") ≡ err (codes "Invalid value for Disk Allocation")
unfolding disk_space_captures is_white take_amount valid_disk_space disk_space_of parse_u16 bytes_eq
refused_disk = refl

valid_disk_space_lem_example :
    ((n : ℕ) × (0 < n)
      × (n ≤ 4096)
      × (codes "10 GB" ≡ to_string n ++ (b' ' ∷ codes "GB"))
      × ((num : Bytes) × (blanks : Bytes) × IsNumeralOf n num
          × (is_white blanks ≡ true)
          × (codes "0010 GB" ≡ num ++ (blanks ++ codes "GB"))))
    × (valid_disk_space (codes "10 GB") ≡ ok (codes "10 GB"))
valid_disk_space_lem_example = valid_disk_space_lem (codes "0010 GB") (codes "10 GB") accepted_disk

abbrev edited : CliConfig
edited = record { host = codes "localhost"; port = codes "+80"; disk_allocated = codes "10 GB" }

accepted_port : valid_port (codes "+80") ≡ ok (codes "+80")
unfolding valid_port parse_u16
accepted_port = refl

config_edit-get_config_example :
    (files2 : Option CliConfig) × (config_edit confy patterns none
        (some (codes "+80"))
        (some (codes "0010 GB"))
        none
      ≡ (ok tt, files2))
    × (get_config confy files2 ≡ (ok edited, files2))
config_edit-get_config_example =
    config_edit-get_config confy (codes "pyrsia-cli.toml") confy-KeepsFile patterns none
      (some (codes "+80")) (some (codes "0010 GB")) none (some default_config) default_config edited
      refl (inl (refl, refl)) (inr (codes "+80", refl, accepted_port))
      (inr (codes "0010 GB", refl, accepted_disk))
