-- ===== src/Cli/Dialogue/Answers.antt =====
-- When the dialogue of src/pyrsia_cli/src/cli/handlers.rs ends.
use pyrsia.Base.{
  ℕ, zero, suc, ◌<◌, ◌≡◌, refl, Option, none, some, [], ◌∷◌, ◌++◌, Bytes, length, arith,
}
use pyrsia.Outcome.{Outcome, ok, err}
use pyrsia.Cli.Dialogue.{Input, asks_on, answers, chosen, read_interactive_input}

module _ (default_val : Bytes) (validate : Bytes → Outcome Bytes Bytes) where
  -- A line that is not read, or whose text is refused
  abbrev pub IsRejected : Option Bytes → Type 0
  IsRejected none = Unit
  IsRejected (some line) = (d : Bytes) × (validate (chosen default_val line) ≡ err d)

  abbrev pub AllRejected : Input → Type 0
  AllRejected [] = Unit
  AllRejected (line ∷ lines) = IsRejected line × AllRejected lines

  answered_after :
      (bad : Input) (line r : Bytes) (rest : Input) (rounds : ℕ)
      → length bad < rounds
      → AllRejected bad
      → validate (chosen default_val line) ≡ ok r
      → read_interactive_input rounds default_val validate (bad ++ (some line ∷ rest))
        ≡ answers r rest
  unfolding read_interactive_input
  answered_after bad line r rest zero enough rejected good = absurd (omega arith)
  answered_after [] line r rest (suc rounds) enough rejected good = ground (arith, good)
  answered_after (none ∷ bad) line r rest (suc rounds) enough (_, rejected) good =
      answered_after bad line r rest rounds (omega arith) rejected good
  answered_after (some other ∷ bad) line r rest (suc rounds) enough ((d, e), rejected) good =
      ground (arith, answered_after bad line r rest rounds (omega arith) rejected good, e)

  never_answered :
      (bad : Input) (fuel : ℕ)
      → AllRejected bad
      → read_interactive_input fuel default_val validate bad ≡ asks_on
  unfolding read_interactive_input
  never_answered bad zero rejected = refl
  never_answered [] (suc fuel) rejected = never_answered [] fuel rejected
  never_answered (none ∷ bad) (suc fuel) (_, rejected) = never_answered bad fuel rejected
  never_answered (some line ∷ bad) (suc fuel) ((d, e), rejected) =
      ground (arith, never_answered bad fuel rejected, e)

  -- After lines that are all rejected, the first line that is accepted ends the loop with its checked
  -- text, in any number of rounds above that of the lines before it, and the lines behind it are left;
  -- but when the input ends before such a line, as many rounds do not end the loop, however many.
  pub read_interactive_input_lem :
      (bad : Input) (line r : Bytes) (rest : Input) (rounds : ℕ)
      → length bad < rounds
      → AllRejected bad
      → validate (chosen default_val line) ≡ ok r
      → (read_interactive_input rounds default_val validate (bad ++ (some line ∷ rest))
          ≡ answers r rest)
        × (read_interactive_input rounds default_val validate bad ≡ asks_on)
  read_interactive_input_lem bad line r rest rounds enough rejected good = (
    answered_after bad line r rest rounds enough rejected good,
    never_answered bad rounds rejected,
  )
