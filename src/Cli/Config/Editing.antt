-- ===== src/Cli/Config/Editing.antt =====
-- `config_edit` of src/cli_commands/config.rs: all fields or none.
use pyrsia.Base.{
  ◌≢◌, ◌≡◌, refl, ap, ◌∙◌, false, Option, none, some, List, [], ◌∷◌, ◌++◌, Bytes, arith, ◌⊎◌, inl,
  inr, Bool-cases, if◌then◌else◌,
}
use pyrsia.Outcome.{Outcome, ok, err}
use pyrsia.Cli.Config.{
  CliConfig, Confy, ConfigError, invalid_config, Patterns, is_empty, valid_host_name, valid_port,
  valid_disk_space, edit_field, overlay, set_host, set_port, set_disk, get_config_path, get_config,
  add_config, finish_edit, config_edit,
}
use pyrsia.Cli.Config.Checks.{
  valid_host_name_some, valid_port_some, valid_disk_space_some, valid_host_name-cases,
  valid_port-cases, valid_disk_space-cases,
}

-- The configuration file is found, what was stored is loaded, and loading changes nothing that a
-- later load reads.
pub record KeepsFile {F : Type 0} (confy : Confy F) (path : Bytes) : Type 0 where
  pub located : confy.get_configuration_file_path ≡ ok path
  pub loaded :
      (files files' : F) (c : CliConfig)
      → confy.load_path path files ≡ (ok c, files')
      → confy.load_path path files' ≡ (ok c, files')
  pub stored :
      (files : F) (c : CliConfig)
      → (files' : F) × (confy.store_path path c files ≡ (ok tt, files'))
        × (confy.load_path path files' ≡ (ok c, files'))

-- A field goes from `old` to `new`: it was not given, or what was given is checked to be `new`.
abbrev pub Becomes : (Bytes → Outcome Bytes Bytes) → Option Bytes → Bytes → Bytes → Type 0
Becomes valid given old new =
    ((given ≡ none) × (new ≡ old)) ⊎ ((v : Bytes) × (given ≡ some v) × (valid v ≡ ok new))

-- A field was given and is refused.
abbrev pub IsRefused : (Bytes → Outcome Bytes Bytes) → Option Bytes → Type 0
IsRefused valid given = (v : Bytes) × (d : Bytes) × (given ≡ some v) × (valid v ≡ err d)

edit_field-Becomes :
    (valid : Bytes → Outcome Bytes Bytes) (assign : CliConfig → Bytes → CliConfig)
    (given : Option Bytes) (old new : Bytes) (c : CliConfig) (errors : List Bytes)
    → assign c old ≡ c
    → Becomes valid given old new
    → edit_field valid assign given (c, errors) ≡ ok (assign c new, errors)
unfolding edit_field
edit_field-Becomes valid assign given old new c errors kept change = elim change [
  | inl (e, same) ↦ let stays = ap (assign c) same ∙ kept in ground (arith, stays)
  | inr (v, e, good) ↦ ground arith
]

kept_or_new :
    (valid : Bytes → Outcome Bytes Bytes) (given : Option Bytes) (old new : Bytes)
    → ((v t : Bytes) → valid v ≡ ok t → is_empty t ≡ false)
    → Becomes valid given old new
    → (if is_empty new then old else new) ≡ new
kept_or_new valid given old new filled change = elim change [
  | inl (e, same) ↦ elim (Bool-cases (is_empty new)) [ inl b ↦ ground arith | inr b ↦ ground arith ]
  | inr (v, e, good) ↦ let nonempty = filled v new good in ground (arith, nonempty)
]

append-ne-nil : (es : List Bytes) (d : Bytes) → es ++ d ∷ [] ≢ []
append-ne-nil [] d = ground arith
append-ne-nil (e ∷ es) d = ground arith

abbrev Decides : (Bytes → Outcome Bytes Bytes) → Type 0
Decides valid = (v : Bytes) → ((t : Bytes) × (valid v ≡ ok t)) ⊎ ((d : Bytes) × (valid v ≡ err d))

module _ (valid : Bytes → Outcome Bytes Bytes) (assign : CliConfig → Bytes → CliConfig) where
  -- A check that decides adds to the errors and takes none away.
  edit_field-decided :
      (given : Option Bytes) (p : CliConfig × List Bytes)
      → Decides valid
      → (p' : CliConfig × List Bytes) × (edit_field valid assign given p ≡ ok p')
        × (p.1 ≢ [] → p'.1 ≢ [])
  unfolding edit_field
  edit_field-decided none p decides = (p, refl, λ h. h)
  edit_field-decided (some v) (c, es) decides = elim (decides v) [
    | inl (t, good) ↦ ((assign c t, es), ground (arith, good), λ h. h)
    | inr (d, bad) ↦ ((c, es ++ d ∷ []), ground (arith, bad), λ _. append-ne-nil es d)
  ]

  edit_field-refused :
      (given : Option Bytes) (p : CliConfig × List Bytes)
      → IsRefused valid given
      → (p' : CliConfig × List Bytes) × (edit_field valid assign given p ≡ ok p') × (p'.1 ≢ [])
  unfolding edit_field
  edit_field-refused given (c, es) (v, d, e, bad) =
      ((c, es ++ d ∷ []), ground (arith, bad, e), append-ne-nil es d)

module _ {F : Type 0} (confy : Confy F) (path : Bytes) (keeps : KeepsFile confy path) where
  get_config-loaded :
      (files : F) (r : Outcome ConfigError CliConfig × F)
      → confy.load_path path files ≡ r
      → get_config confy files ≡ r
  unfolding get_config get_config_path
  get_config-loaded files r h = rw (keeps.located) h

  add_config-stored :
      (files : F) (c new : CliConfig)
      → confy.load_path path files ≡ (ok c, files)
      → overlay new c ≡ new
      → (files' : F) × (add_config confy new files ≡ (ok tt, files'))
        × (get_config confy files' ≡ (ok new, files'))
  unfolding add_config get_config_path
  add_config-stored files c new h same =
      let (files', written, read_back) = keeps.stored files new in
      (
        files',
        ground (arith, keeps.located, written),
        get_config-loaded files' (ok new, files') read_back,
      )

  module _ (patterns : Patterns) where
    overlay-Becomes :
        (host_name port disk_space : Option Bytes) (c new : CliConfig)
        → Becomes (valid_host_name patterns) host_name c.host new.host
        → Becomes valid_port port c.port new.port
        → Becomes valid_disk_space disk_space c.disk_allocated new.disk_allocated
        → overlay new c ≡ new
    unfolding overlay
    overlay-Becomes host_name port disk_space c new h1 h2 h3 =
        let e1 =
          kept_or_new (valid_host_name patterns) host_name c.host new.host
            (valid_host_name_some patterns) h1 in
        let e2 = kept_or_new valid_port port c.port new.port valid_port_some h2 in
        let e3 =
          kept_or_new valid_disk_space disk_space c.disk_allocated new.disk_allocated
            valid_disk_space_some h3 in
        λ i. record { host = e1 i; port = e2 i; disk_allocated = e3 i }

    -- Where confy finds the path, loads a configuration, never fails to store one, and loads what it
    -- stored: when no field that is given is refused, `config_edit` succeeds and the configuration
    -- that is read afterwards has the checked value in each field that was given and the old one in
    -- the others.
    pub config_edit-get_config :
        (host_name port disk_space : Option Bytes) (files files1 : F) (c new : CliConfig)
        → confy.load_path path files ≡ (ok c, files1)
        → Becomes (valid_host_name patterns) host_name c.host new.host
        → Becomes valid_port port c.port new.port
        → Becomes valid_disk_space disk_space c.disk_allocated new.disk_allocated
        → (files2 : F) × (config_edit confy patterns host_name port disk_space files
            ≡ (ok tt, files2))
          × (get_config confy files2 ≡ (ok new, files2))
    unfolding config_edit finish_edit
    config_edit-get_config host_name port disk_space files files1 c new h h1 h2 h3 =
        let (files2, done, read_back) =
          add_config-stored files1 c new (keeps.loaded files files1 c h)
            (overlay-Becomes host_name port disk_space c new h1 h2 h3) in
        let c1 = record c { host = new.host } in
        let c2 = record c1 { port = new.port } in
        let e0 = get_config-loaded files (ok c, files1) h in
        let e1 =
          edit_field-Becomes (valid_host_name patterns) set_host host_name c.host new.host c [] refl
            h1 in
        let e2 = edit_field-Becomes valid_port set_port port c.port new.port c1 [] refl h2 in
        let e3 =
          edit_field-Becomes valid_disk_space set_disk disk_space c.disk_allocated
            new.disk_allocated c2 [] refl h3 in
        (files2, ground (arith, e0, e1, e2, e3, done), read_back)

    config_edit-edited :
        (host_name port disk_space : Option Bytes) (files files1 : F) (c : CliConfig)
        (p1 p2 p3 : CliConfig × List Bytes)
        → confy.load_path path files ≡ (ok c, files1)
        → edit_field (valid_host_name patterns) set_host host_name (c, []) ≡ ok p1
        → edit_field valid_port set_port port p1 ≡ ok p2
        → edit_field valid_disk_space set_disk disk_space p2 ≡ ok p3
        → p3.1 ≢ []
        → (errors : List Bytes) × (config_edit confy patterns host_name port disk_space files
            ≡ (err (invalid_config errors), files1))
    unfolding config_edit finish_edit
    config_edit-edited host_name port disk_space files files1 c p1 p2 (c3, []) h e1 e2 e3
          some_error =
        absurd (some_error refl)
    config_edit-edited host_name port disk_space files files1 c p1 p2 (c3, d ∷ es) h e1 e2 e3
          some_error =
        (d ∷ es, ground (arith, get_config-loaded files (ok c, files1) h, e1, e2, e3))

    -- When a field that is given is refused, whichever, `config_edit` is an error and stores
    -- nothing, also of the fields that are in order: the files are as the first load left them.
    pub config_edit_refused :
        (host_name port disk_space : Option Bytes) (files files1 : F) (c : CliConfig)
        → confy.load_path path files ≡ (ok c, files1)
        → IsRefused (valid_host_name patterns) host_name
          ⊎ IsRefused valid_port port
          ⊎ IsRefused valid_disk_space disk_space
        → (errors : List Bytes) × (config_edit confy patterns host_name port disk_space files
            ≡ (err (invalid_config errors), files1))
    config_edit_refused host_name port disk_space files files1 c h refused = elim refused [
      | inl first ↦
          let (p1, e1, f1) =
            edit_field-refused (valid_host_name patterns) set_host host_name (c, []) first in
          let (p2, e2, f2) = edit_field-decided valid_port set_port port p1 valid_port-cases in
          let (p3, e3, f3) =
            edit_field-decided valid_disk_space set_disk disk_space p2 valid_disk_space-cases in
          config_edit-edited host_name port disk_space files files1 c p1 p2 p3 h e1 e2 e3
            (f3 (f2 f1))
      | inr (inl second) ↦
          let (p1, e1, f1) =
            edit_field-decided (valid_host_name patterns) set_host host_name (c, [])
              (valid_host_name-cases patterns) in
          let (p2, e2, f2) = edit_field-refused valid_port set_port port p1 second in
          let (p3, e3, f3) =
            edit_field-decided valid_disk_space set_disk disk_space p2 valid_disk_space-cases in
          config_edit-edited host_name port disk_space files files1 c p1 p2 p3 h e1 e2 e3 (f3 f2)
      | inr (inr third) ↦
          let (p1, e1, f1) =
            edit_field-decided (valid_host_name patterns) set_host host_name (c, [])
              (valid_host_name-cases patterns) in
          let (p2, e2, f2) = edit_field-decided valid_port set_port port p1 valid_port-cases in
          let (p3, e3, f3) = edit_field-refused valid_disk_space set_disk disk_space p2 third in
          config_edit-edited host_name port disk_space files files1 c p1 p2 p3 h e1 e2 e3 f3
    ]
