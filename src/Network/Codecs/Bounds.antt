-- ===== src/Network/Codecs/Bounds.antt =====
-- How much the codecs of src/network/artifact_protocol.rs and blockchain_protocol.rs let through.
use pyrsia.Base.{ℕ, Bytes, length, ltb, ◌==◌, if◌then◌else◌}
use pyrsia.Outcome.{Outcome, ok, err}
use pyrsia.Network.Codecs.{IoError, unexpected_eof, invalid_data}
use pyrsia.Network.Codecs.Artifact
use pyrsia.Network.Codecs.Blockchain

-- What comes of `bytes` at a reader that takes at most `max`
pub received {ℓ} : {A : Type ℓ} → ℕ → Bytes → A → Outcome IoError A
received max bytes answer =
    if length bytes == 0
    then err unexpected_eof
    else if ltb max (length bytes)
    then err invalid_data
    else ok answer
