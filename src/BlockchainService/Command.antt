-- ===== src/BlockchainService/Command.antt =====
-- `BlockchainCommand` of src/blockchain_service/service.rs, the first byte of a message.
use pyrsia.Base.{ℕ, ◌≡◌, ◌↔◌, arith, ◌==◌, if◌then◌else◌}
use pyrsia.Outcome.{Outcome, ok, err}
use pyrsia.Blockchain.Types.{BlockchainError, invalid_blockchain_cmd}

pub data BlockchainCommand : Type 0 where
  broadcast push_to_peer pull_from_peer query_highest_block_ordinal : BlockchainCommand

-- `command as u8`
unfoldable pub to_u8 : BlockchainCommand → ℕ
to_u8 broadcast = 1
to_u8 push_to_peer = 2
to_u8 pull_from_peer = 3
to_u8 query_highest_block_ordinal = 4

-- `BlockchainCommand::try_from`
unfoldable pub try_from : ℕ → Outcome BlockchainError BlockchainCommand
try_from value =
    if value == 1
    then ok broadcast
    else if value == 2
    then ok push_to_peer
    else if value == 3
    then ok pull_from_peer
    else if value == 4
    then ok query_highest_block_ordinal
    else err invalid_blockchain_cmd

-- Reading the byte of a command gives the command, and every byte that is read as a command is the
-- byte of that command.
pub try_from-to_u8 :
    (value : ℕ) (c : BlockchainCommand) → (try_from value ≡ ok c) ↔ (value ≡ to_u8 c)
unfolding try_from to_u8
try_from-to_u8 value broadcast = ground arith
try_from-to_u8 value c = ground arith
