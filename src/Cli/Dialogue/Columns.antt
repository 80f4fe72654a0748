-- ===== src/Cli/Dialogue/Columns.antt =====
-- The columns that are named at the command line, and what a node answers with: `parse_arg_fields` of
-- src/pyrsia_cli/src/cli/handlers.rs and `handle_inspect_log_docker` of
-- src/node_api/handlers/swarm.rs.
use pyrsia.Outcome.{Outcome}
use pyrsia.TransparencyLog.Types.{TransparencyLog}
