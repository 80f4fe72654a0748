-- ===== src/Cli/Dialogue.antt =====
-- src/pyrsia_cli/src/cli/handlers.rs: the dialogue that makes a configuration, and what is printed of
-- the answers to build requests.
pub mod Answers
pub mod Columns
use pyrsia.Base.{
  ℕ, zero, suc, Bool, Option, none, some, List, [], ◌∷◌, ◌++◌, Bytes, codes, if◌then◌else◌,
}
use pyrsia.Outcome.{Outcome, ok, err, panicked, ◌>>=◌}
use pyrsia.BuildService.Names.{split}
use pyrsia.NodeApi.Requests.{
  TransparencyLogField, Content, ParseError, field_from_str, parse_fields,
}
use pyrsia.Cli.Config.{
  CliConfig, default_config, ConfigError, Confy, Patterns, is_empty, valid_host_name, valid_port,
  valid_disk_space, add_config,
}
use pyrsia.Cli.Node.{NodeError, BuildResultResponse}

-- The lines of the standard input that are still to be read, without their ends; `none` is a line
-- that `read_line` fails on. After the last one each read finds no bytes.
abbrev pub Input : Type 0
Input = List (Option Bytes)

-- How a loop that asks for input ends, when it does
pub data Answer : Type 0 where
  asks_on : Answer
  breaks_down : Answer
  answers : Bytes → Input → Answer

-- The text that is checked
abbrev pub chosen : Bytes → Bytes → Bytes
chosen default_val line = if is_empty line then default_val else line

-- `read_interactive_input`, with fuel for its rounds; `asks_on` when they are used up
unfoldable pub read_interactive_input : ℕ → Bytes → (Bytes → Outcome Bytes Bytes) → Input → Answer
read_interactive_input zero default_val validate input = asks_on
read_interactive_input (suc fuel) default_val validate [] =
    read_interactive_input fuel default_val validate []
read_interactive_input (suc fuel) default_val validate (none ∷ input) =
    read_interactive_input fuel default_val validate input
read_interactive_input (suc fuel) default_val validate (some line ∷ input) =
    let rest = read_interactive_input fuel default_val validate input in
    elim (validate (chosen default_val line)) [
      | ok r ↦ answers r input
      | err d ↦ rest
      | panicked ↦ breaks_down
    ]

-- What is done with an answer
abbrev then_with :
    {A : Type 0}
    → Answer
    → (Bytes → Input → Option (Outcome ConfigError A))
    → Option (Outcome ConfigError A)
then_with asks_on k = none
then_with breaks_down k = some panicked
then_with (answers r input) k = k r input

-- The three questions of `config_add`, each with as many rounds
unfoldable pub ask_config : ℕ → Patterns → Input → Option (Outcome ConfigError CliConfig)
ask_config fuel patterns input =
    then_with (read_interactive_input fuel default_config.host (valid_host_name patterns) input)
      λ host input1.
        then_with (read_interactive_input fuel default_config.port valid_port input1) λ port input2.
          then_with
            (read_interactive_input fuel default_config.disk_allocated valid_disk_space input2)
            λ disk_allocated input3.
              some (ok (record { host = host; port = port; disk_allocated = disk_allocated }))

-- `config_add`; nothing comes back while it still asks.
unfoldable pub config_add :
    {F : Type 0} → Confy F → ℕ → Patterns → Input → F → Option (Outcome ConfigError (Unit {0}) × F)
config_add confy fuel patterns input files = elim (ask_config fuel patterns input) [
  | none ↦ none
  | some (ok new_cfg) ↦ some (add_config confy new_cfg files)
  | some (err e) ↦ some (err e, files)
  | some panicked ↦ some (panicked, files)
]

-- The lines of `handle_request_build_result`
pub data Line : Type 0 where
  build_started : Bytes → Line
  message_line : Bytes → Line
  build_request_failed : NodeError → Line

abbrev started : Option Bytes → List Line
started none = []
started (some build_id) = build_started build_id ∷ []

abbrev told : Option Bytes → List Line
told none = []
told (some message) = message_line message ∷ []

-- `handle_request_build_result`
unfoldable pub handle_request_build_result :
    Outcome NodeError BuildResultResponse → Outcome NodeError (List Line)
handle_request_build_result (ok response) = ok (started response.build_id ++ told response.message)
handle_request_build_result (err e) = ok (build_request_failed e ∷ [])
handle_request_build_result panicked = panicked

-- `str::trim` of each piece between commas is `trim`.
abbrev pub trim_all : (Bytes → Bytes) → List Bytes → List Bytes
trim_all trim [] = []
trim_all trim (s ∷ pieces) = trim s ∷ trim_all trim pieces

-- `parse_arg_fields`
unfoldable pub parse_arg_fields :
    (Bytes → Bytes) → (Bytes → Bytes) → Option Bytes → Outcome ParseError (Option Content)
parse_arg_fields to_lowercase trim none = ok none
parse_arg_fields to_lowercase trim (some names) =
    parse_fields to_lowercase (trim_all trim (split b',' names)) >>= λ fields.
    ok (some (record { fields = fields }))
