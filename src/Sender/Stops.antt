-- ===== src/Sender/Stops.antt =====
-- The end of the sender's loop: how far it still goes once the stop flag is set.
use low_latency_data_transfe.Base.{
  false, ℕ, ◌≤◌, ◌≡◌, refl, List, [], ◌∷◌, Bool, true, Option, none, some, arith, length, ◌==◌,
  if◌then◌else◌, if_cases,
}
use low_latency_data_transfe.Message.{Profile}
use low_latency_data_transfe.Builder.{SourceFrameView, CanonicalDataPacketView}
use low_latency_data_transfe.Sender.{
  SenderState, SenderEnd, Turn, Poll, Batch, Outcome, finished, failed, continued, packet,
  out_of_fuel, batch_fuel, fill_batch, batch_step, emit, build_packet, send_frame, sender_pass,
  sender_turn, run_sender,
}

-- Nothing is carried over, and the loop is left in the next pass.
abbrev Ready : SenderState → Type 0
Ready st = (st.carry_frame ≡ none) × (st.stopping ≡ true)

abbrev OutcomeReady : Outcome → Type 0
OutcomeReady (finished st) = Ready st
OutcomeReady (failed st) = Ready st
OutcomeReady (continued st) = Ready st
OutcomeReady (packet st v) = Ready st
OutcomeReady out_of_fuel = ⊥

module _ (p : Profile) (mask : ℕ) (batching : Bool) where
  finishing :
      (st : SenderState) (t : Turn)
      → Ready st
      → sender_turn p mask batching st t ≡ finished (record st { stopping = true })
  unfolding sender_turn sender_pass
  finishing st t ready = ground (arith, ready.0, ready.1)

  stopped_batch :
      (polls : ℕ → Poll) (b : Batch)
      → (polls 0).stop_requested ≡ true
      → fill_batch p mask batch_fuel polls 0 b ≡ some (record b { stopping = true })
  unfolding fill_batch batch_step
  stopped_batch polls b stop = rw (stop, fill_batch, batch_step)

  send_frame-Ready :
      (st : SenderState) (t : Turn) (frame : SourceFrameView)
      → Ready st
      → (t.polls 0).stop_requested ≡ true
      → OutcomeReady (send_frame p mask batching st t frame)
  unfolding send_frame build_packet
  send_frame-Ready st t frame ready stop =
      if_cases OutcomeReady t.mbuf_allocated _ _ (λ _. reserved t.packet_memory) (λ _. ready)
    where
      reserved :
          (memory : Option (List ℕ))
          → OutcomeReady (elim memory [
            | none ↦ failed st
            | some m ↦ build_packet p mask batching st t frame m
          ])
      reserved none = ready
      reserved (some m) =
          if_cases OutcomeReady batching _ _
            (λ _. rw (stopped_batch t.polls _ stop, emit) (ready.0, refl))
            (λ _. unfold emit in ready)

  -- A pass that finds the stop flag set, from any state.
  sender_turn-Ready :
      (st : SenderState) (t : Turn)
      → t.stop_requested ≡ true
      → (t.polls 0).stop_requested ≡ true
      → OutcomeReady (sender_turn p mask batching st t)
  unfolding sender_turn sender_pass
  sender_turn-Ready st t stop poll = pass st.carry_frame refl
    where
      stopping : (if t.stop_requested then true else st.stopping) ≡ true
      stopping = rw stop

      pass :
          (carry : Option SourceFrameView)
          → st.carry_frame ≡ carry
          → OutcomeReady (
              sender_pass p mask batching
                (record st { stopping = if t.stop_requested then true else st.stopping })
                t
                carry)
      pass none e =
          if_cases OutcomeReady (if t.stop_requested then true else st.stopping) _ _
            (λ _. (e, stopping)) (λ going. absurd (ground (arith, going, stopping)))
      pass (some frame) e = send_frame-Ready _ t frame (refl, stopping) poll

  -- The last pass, whatever passes would follow.
  last_pass :
      (st : SenderState) (t : Turn) (rest : List Turn)
      → Ready st
      → run_sender p mask batching st (t ∷ rest)
        ≡ record { state = record st { stopping = true }; sent = []; err = 0; ended = true }
  unfolding run_sender
  last_pass st t rest ready = rw (finishing st t ready, run_sender)

  -- The passes behind the first one, by what that one left.
  abbrev behind : SenderState → Turn → List Turn → Outcome → SenderEnd
  behind st t rest o = elim o [
    | finished st' ↦ record { state = st'; sent = []; err = 0; ended = true }
    | failed st' ↦ record { state = st'; sent = []; err = 1; ended = true }
    | continued st' ↦ run_sender p mask batching st' rest
    | packet st' v ↦
        let end = run_sender p mask batching st' rest in
        record end { sent = if t.sent == 0 then end.sent else v ∷ end.sent }
    | out_of_fuel ↦ record { state = st; sent = []; err = 0; ended = false }
  ]

  -- Once a pass finds the stop flag set, and its first poll too, the next pass is the last one: from
  -- any state the run has ended behind it, is the same whatever passes would follow, sends one packet
  -- at most, and leaves no frame carried over.
  pub run_sender-stops :
      (st : SenderState) (t t' : Turn) (turns : List Turn)
      → t.stop_requested ≡ true
      → (t.polls 0).stop_requested ≡ true
      → let end = run_sender p mask batching st (t ∷ t' ∷ turns) in
        (end ≡ run_sender p mask batching st (t ∷ t' ∷ []))
        × (length end.sent ≤ 1)
        × (end.state.carry_frame ≡ none)
        × (end.state.stopping ≡ true)
        × (end.ended ≡ true)
  unfolding run_sender
  run_sender-stops st t t' turns stop poll =
      go (sender_turn p mask batching st t) (sender_turn-Ready st t stop poll)
    where
      go :
          (o : Outcome)
          → OutcomeReady o
          → (behind st t (t' ∷ turns) o ≡ behind st t (t' ∷ []) o)
            × (length (behind st t (t' ∷ turns) o).sent ≤ 1)
            × ((behind st t (t' ∷ turns) o).state.carry_frame ≡ none)
            × ((behind st t (t' ∷ turns) o).state.stopping ≡ true)
            × ((behind st t (t' ∷ turns) o).ended ≡ true)
      go (finished st') ready = (refl, omega arith, ready.0, ready.1, refl)
      go (failed st') ready = (refl, omega arith, ready.0, ready.1, refl)
      go (continued st') ready =
          rw (last_pass st' t' turns ready, last_pass st' t' [] ready)
            (refl, omega arith, ready.0, refl, refl)
      go (packet st' v) ready =
          rw (last_pass st' t' turns ready, last_pass st' t' [] ready)
            (
              refl,
              if_cases (λ (vs : List CanonicalDataPacketView). length vs ≤ 1) (t.sent == 0) []
                  (v ∷ []) (λ _. omega arith) (λ _. omega arith),
              ready.0,
              refl,
              refl,
            )
      go out_of_fuel ready = elim ready [ ]
