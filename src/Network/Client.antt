-- ===== src/Network/Client.antt =====
-- src/network/client.rs: the client that hands commands to the event loop and waits for answers.
pub mod IdlePeer
use pyrsia.Base.{ℕ, Bool, true, false, Option, none, some, List, [], ◌∷◌, Bytes, if◌then◌else◌}
use pyrsia.Outcome.{Outcome, ok, err, panicked}
use pyrsia.Exec.{Exec, lift, pure, ◌>>=◌, ◌>>◌}
use pyrsia.TransparencyLog.Types.{PackageType}
use pyrsia.Network.Types
use pyrsia.Network.Types.{PeerId, Command, Answer, done, failed, Status, BuildStatus}

-- What comes of a command with a channel for the answer: the queue of commands is closed, the loop
-- drops the channel, or it sends an answer.
pub data Reply : Type 0 where
  queue_closed sender_dropped : Reply
  reply : Answer → Reply

-- `sender` and the loop at its other end, of state `S`. A command that wants an answer is given the
-- channel that is made for it.
pub record CommandSender (S : Type 0) : Type 0 where
  pub ask : (ℕ → Command) → S → Reply × S
  pub tell : Command → S → Bool × S

-- `anyhow::Error`
pub data ClientError : Type 0 where
  client_error : ClientError

-- The second `?` of `receiver.await??`, and the values of each type that the loop may answer with.
-- The other answers cannot come, since each channel has its type.
abbrev pub unit_answer : Answer → Outcome ClientError (Unit {0})
unit_answer done = ok tt
unit_answer failed = err client_error
unit_answer _ = panicked

abbrev pub peers_answer : Answer → Outcome ClientError (List PeerId)
peers_answer (Types.peers ps) = ok ps
peers_answer _ = panicked

abbrev pub status_answer : Answer → Outcome ClientError Status
status_answer (Types.status s) = ok s
status_answer _ = panicked

abbrev pub build_id_answer : Answer → Outcome ClientError Bytes
build_id_answer (Types.build_id id) = ok id
build_id_answer failed = err client_error
build_id_answer _ = panicked

abbrev pub artifact_answer : Answer → Outcome ClientError Bytes
artifact_answer (Types.artifact bytes) = ok bytes
artifact_answer failed = err client_error
artifact_answer _ = panicked

abbrev pub blockchain_answer : Answer → Outcome ClientError Bytes
blockchain_answer (Types.blockchain bytes) = ok bytes
blockchain_answer failed = err client_error
blockchain_answer _ = panicked

abbrev pub build_status_answer : Answer → Outcome ClientError BuildStatus
build_status_answer (Types.build_status s) = ok s
build_status_answer failed = err client_error
build_status_answer _ = panicked

module _ {S : Type 0} (sender : CommandSender S) where
  -- `send(..).await?` and `receiver.await?`
  abbrev pub await :
      {A : Type 0} → (ℕ → Command) → (Answer → Outcome ClientError A) → Exec S ClientError A
  await c read s =
      let (r, s') = sender.ask c s in
      elim r [
        | queue_closed ↦ (err client_error, s')
        | sender_dropped ↦ (err client_error, s')
        | reply a ↦ (read a, s')
      ]

  abbrev pub tell : Command → Exec S ClientError (Unit {0})
  tell c s =
      let (accepted, s') = sender.tell c s in
      if accepted then (ok tt, s') else (err client_error, s')

  unfoldable pub add_probe_address : PeerId → Bytes → Exec S ClientError (Unit {0})
  add_probe_address peer_id probe_addr = do
    await (Types.add_probe peer_id probe_addr) unit_answer
    await Types.bootstrap_dht unit_answer

  unfoldable pub listen : Bytes → Exec S ClientError (Unit {0})
  listen addr = await (Types.listen addr) unit_answer

  unfoldable pub dial : PeerId → Bytes → Exec S ClientError (Unit {0})
  dial peer_id peer_addr = do
    await (Types.dial peer_id peer_addr) unit_answer
    await Types.bootstrap_dht unit_answer

  unfoldable pub list_peers : Exec S ClientError (List PeerId)
  list_peers = await Types.list_peers peers_answer

  unfoldable pub status : Exec S ClientError Status
  status = await Types.get_status status_answer

  unfoldable pub provide : Bytes → Exec S ClientError (Unit {0})
  provide artifact_id = await (Types.provide artifact_id) unit_answer

  unfoldable pub list_providers : Bytes → Exec S ClientError (List PeerId)
  list_providers artifact_id = await (Types.list_providers artifact_id) peers_answer

  unfoldable pub request_build : PeerId → PackageType → Bytes → Exec S ClientError Bytes
  request_build peer_id t id = await (Types.request_build peer_id t id) build_id_answer

  unfoldable pub verify_build : PackageType → Bytes → Exec S ClientError (Unit {0})
  verify_build t id = await (Types.verify_build t id) unit_answer

  unfoldable pub respond_build : Bytes → ℕ → Exec S ClientError (Unit {0})
  respond_build build_id channel = tell (Types.respond_build build_id channel)

  unfoldable pub request_artifact : PeerId → Bytes → Exec S ClientError Bytes
  request_artifact peer artifact_id =
      await (Types.request_artifact artifact_id peer) artifact_answer

  unfoldable pub respond_artifact : Bytes → ℕ → Exec S ClientError (Unit {0})
  respond_artifact artifact channel = tell (Types.respond_artifact artifact channel)

  unfoldable pub respond_idle_metric : Bytes → ℕ → Exec S ClientError (Unit {0})
  respond_idle_metric metric channel = tell (Types.respond_idle_metric metric channel)

  unfoldable pub request_blockchain : PeerId → Bytes → Exec S ClientError Bytes
  request_blockchain peer buf = await (Types.request_blockchain buf peer) blockchain_answer

  unfoldable pub respond_blockchain : Bytes → ℕ → Exec S ClientError (Unit {0})
  respond_blockchain buf channel = tell (Types.respond_blockchain buf channel)

  unfoldable pub broadcast_block : Bytes → Exec S ClientError (Unit {0})
  broadcast_block block = await (Types.broadcast_block block) unit_answer

  unfoldable pub request_build_status : PeerId → Bytes → Exec S ClientError BuildStatus
  request_build_status peer_id build_id =
      await (Types.request_build_status peer_id build_id) build_status_answer

  unfoldable pub respond_build_status : BuildStatus → ℕ → Exec S ClientError (Unit {0})
  respond_build_status status channel = tell (Types.respond_build_status status channel)
