-- ===== src/BlockchainService/Events/Answered.antt =====
-- Which of the events of src/blockchain_service/event.rs are answered, and in what order.
use pyrsia.Base.{ℕ, subst, ◌≡◌, refl, sym, ap, ◌∙◌, List, [], ◌∷◌, ◌++◌, arith, inl, inr, ◌⊎◌}
use mathlib.Core.List.{append-nil, append_assoc}
use pyrsia.Outcome.{Outcome, ok, err, panicked}
use pyrsia.Blockchain.Types.{BlockchainError}
use pyrsia.BlockchainService.{add_payload, init_pull_from_others, pull_blocks}
use pyrsia.BlockchainService.Responder.{
  BlockchainEventLoop, Listener, in_service, handle_block_broadcast, handle_pull_blocks,
  handle_query_block_ordinal,
}
use pyrsia.BlockchainService.Events.{
  BlockchainEvent, add_block, pull_blocks_from_peer, pull_blocks_local, block_broadcast,
  blocks_pulled, block_ordinal_queried, BlockchainAnswer, done, ordinal, blocks, Answering,
  Answered, answer, Moment, handle_blockchain_event, run,
}

-- The channel of an event, and the channels of events and of answers in their order
abbrev pub sender_of : BlockchainEvent → ℕ
sender_of (add_block _ sender) = sender
sender_of (pull_blocks_from_peer _ sender) = sender
sender_of (pull_blocks_local _ _ sender) = sender
sender_of (block_broadcast _ _ sender) = sender
sender_of (blocks_pulled _ _ sender) = sender
sender_of (block_ordinal_queried sender) = sender

abbrev pub senders : List (Moment × BlockchainEvent) → List ℕ
senders [] = []
senders ((_, event) ∷ events) = sender_of event ∷ senders events

abbrev pub receivers : List (ℕ × BlockchainAnswer) → List ℕ
receivers [] = []
receivers ((sender, _) ∷ answers) = sender ∷ receivers answers

-- One answer into the channel, or a panic and none
abbrev IsAnswered : {L : Type 0} → ℕ → Answering L → Answered L → Type 0
IsAnswered sender s (r, s') =
    ((r ≡ ok tt) × ((a : BlockchainAnswer) × (s'.sent ≡ s.sent ++ (sender, a) ∷ [])))
    ⊎ ((r ≡ panicked) × (s'.sent ≡ s.sent))

answer-IsAnswered :
    {L A : Type 0} (sender : ℕ) (form : Outcome BlockchainError A → BlockchainAnswer)
    (result : Outcome BlockchainError A × BlockchainEventLoop L) (s : Answering L)
    → IsAnswered sender s (answer sender form result s)
answer-IsAnswered sender form (ok a, l) s = inl (refl, (form (ok a), refl))
answer-IsAnswered sender form (err e, l) s = inl (refl, (form (err e), refl))
answer-IsAnswered sender form (panicked, l) s = inr (refl, refl)

module _ {L : Type 0} (listener : Listener L) where
  handle_blockchain_event-IsAnswered :
      (m : Moment) (event : BlockchainEvent) (s : Answering L)
      → IsAnswered (sender_of event) s (handle_blockchain_event listener m event s)
  unfolding handle_blockchain_event
  handle_blockchain_event-IsAnswered m (add_block payload sender) s =
      let call =
        in_service m.setting.platform m.setting.file_system listener
          (add_payload m.setting m.net payload) s.event_loop in
      answer-IsAnswered sender done call s
  handle_blockchain_event-IsAnswered m (pull_blocks_from_peer peer_id sender) s =
      let p = m.setting.platform in
      let fs = m.setting.file_system in
      let call = in_service p fs listener (init_pull_from_others p fs m.net peer_id) s.event_loop in
      answer-IsAnswered sender ordinal call s
  handle_blockchain_event-IsAnswered m (pull_blocks_local start end sender) s =
      answer-IsAnswered sender blocks
        (pull_blocks start end s.event_loop.blockchain_service, s.event_loop) s
  handle_blockchain_event-IsAnswered m (block_broadcast block_ordinal block sender) s =
      let call =
        handle_block_broadcast m.setting.platform m.setting.file_system listener block_ordinal block
          s.event_loop in
      answer-IsAnswered sender done call s
  handle_blockchain_event-IsAnswered m (blocks_pulled start end sender) s =
      let call =
        handle_pull_blocks m.setting.platform m.setting.file_system listener start end
          s.event_loop in
      answer-IsAnswered sender blocks call s
  handle_blockchain_event-IsAnswered m (block_ordinal_queried sender) s =
      let call =
        handle_query_block_ordinal m.setting.platform m.setting.file_system listener s.event_loop in
      answer-IsAnswered sender ordinal call s

  module _ (m : Moment) (event : BlockchainEvent) (rest : List (Moment × BlockchainEvent))
      (s : Answering L) where
    run_of_ok :
        (handle_blockchain_event listener m event s).0 ≡ ok tt
        → run listener ((m, event) ∷ rest) s
          ≡ run listener rest (handle_blockchain_event listener m event s).1
    unfolding run
    run_of_ok fine = ground (arith, fine)

    run_of_panic :
        (handle_blockchain_event listener m event s).0 ≡ panicked
        → run listener ((m, event) ∷ rest) s
          ≡ (panicked, (handle_blockchain_event listener m event s).1)
    unfolding run
    run_of_panic panics = ground (arith, panics)

  -- The events so far are answered, each once and in their order; what is left is nothing, or starts
  -- with an event whose handler panics in the state that the loop has come to.
  abbrev pub AreAnswered : List (Moment × BlockchainEvent) → Answering L → Answered L → Type 0
  AreAnswered events s end =
      (answered : List (Moment × BlockchainEvent)) × (left : List (Moment × BlockchainEvent))
      × (answers : List (ℕ × BlockchainAnswer)) × (events ≡ answered ++ left)
      × (end.1.sent ≡ s.sent ++ answers)
      × (receivers answers ≡ senders answered)
      × (((end.0 ≡ ok tt) × (left ≡ []))
          ⊎ ((m : Moment) × (event : BlockchainEvent) × (later : List (Moment × BlockchainEvent))
              × (reached : Answering L) × (left ≡ (m, event) ∷ later)
              × (run listener answered s ≡ (ok tt, reached))
              × (handle_blockchain_event listener m event reached ≡ (panicked, end.1))
              × (end.0 ≡ panicked)))

  -- However the events of the blockchain mix, the loop answers them one by one in the order in which
  -- they came, each once, until the first whose handler panics; if none does, it answers all.
  pub run-AreAnswered :
      (events : List (Moment × BlockchainEvent)) (s : Answering L)
      → AreAnswered events s (run listener events s)
  unfolding run
  run-AreAnswered [] s = ([], [], [], refl, sym (append-nil s.sent), refl, inl (refl, refl))
  run-AreAnswered ((m, event) ∷ rest) s = elim (handle_blockchain_event-IsAnswered m event s) [
    | inl (fine, (a, sent)) ↦
        let (answered, left, answers, split, more, same, ends) =
          run-AreAnswered rest (handle_blockchain_event listener m event s).1 in
        subst (AreAnswered ((m, event) ∷ rest) s) (sym (run_of_ok m event rest s fine)) (
          (m, event) ∷ answered,
          left,
          (sender_of event, a) ∷ answers,
          ap (λ l. (m, event) ∷ l) split,
          more
              ∙ ap (λ (l : List (ℕ × BlockchainAnswer)). l ++ answers) sent
              ∙ append_assoc s.sent ((sender_of event, a) ∷ []) answers,
          ap (λ l. sender_of event ∷ l) same,
          elim ends [
            | inl whole ↦ inl whole
            | inr (m', event', later, reached, shape, before, panics, last) ↦ inr (
              m',
              event',
              later,
              reached,
              shape,
              run_of_ok m event answered s fine ∙ before,
              panics,
              last,
            )
          ],
        )
    | inr (panics, sent) ↦
        subst (AreAnswered ((m, event) ∷ rest) s) (sym (run_of_panic m event rest s panics)) (
          [],
          (m, event) ∷ rest,
          [],
          refl,
          sent ∙ sym (append-nil s.sent),
          refl,
          inr (
            m,
            event,
            rest,
            s,
            refl,
            refl,
            ap (λ r. (r, (handle_blockchain_event listener m event s).1)) panics,
            refl,
          ),
        )
  ]
