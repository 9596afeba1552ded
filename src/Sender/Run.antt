-- ===== src/Sender/Run.antt =====
-- Runs of the sender's loop: the packets that the port took, and the state at the end.
use low_latency_data_transfe.Base.{
  true, false, ℕ, ◌+◌, ◌^◌, ◌≤◌, ◌<◌, ◌≡◌, List, [], ◌∷◌, Bool, Option, none, some, arith, length,
  ◌==◌, if◌then◌else◌, if_cases,
}
use low_latency_data_transfe.Message.{Profile, IsProfile}
use low_latency_data_transfe.Builder.{SourceFrameView, CanonicalDataPacketView}
use low_latency_data_transfe.Sender.{
  SenderState, SenderEnd, Turn, Outcome, finished, failed, continued, packet, out_of_fuel,
  sender_turn, run_sender, outer_size, data_packet_canonical_capacity,
}
use low_latency_data_transfe.Sender.Loop.{IsCarry}
use low_latency_data_transfe.Sender.Turns.{IsSender, IsDataPacket, TurnGood, sender_turn-TurnGood}
use low_latency_data_transfe.Sender.Audit.{
  IsAudited, CarryFits, OutcomeAudited, sender_turn-Audited,
}

-- `try_reserve_data_packet` gives all of the packet or nothing.
abbrev pub Reserves : Turn → Type 0
Reserves t =
    (m : List ℕ) → t.packet_memory ≡ some m → length m ≡ outer_size + data_packet_canonical_capacity

abbrev pub AllReserve : List Turn → Type 0
AllReserve [] = Unit {0}
AllReserve (t ∷ turns) = Reserves t × AllReserve turns

-- Data packets with strictly increasing numbers from `next` on and below `limit`.
abbrev pub Emitted : Profile → ℕ → ℕ → List CanonicalDataPacketView → Type 0
Emitted p next limit [] = Unit {0}
Emitted p next limit (v ∷ vs) =
    (n : ℕ) × (next ≤ n) × (n < limit) × IsDataPacket p n v × Emitted p (n + 1) limit vs

Emitted-weaken :
    (p : Profile) (next next' limit limit' : ℕ) (vs : List CanonicalDataPacketView)
    → next ≤ next'
    → limit' ≤ limit
    → Emitted p next' limit' vs
    → Emitted p next limit vs
Emitted-weaken p next next' limit limit' [] low high e = tt
Emitted-weaken p next next' limit limit' (v ∷ vs) low high (n, least, most, d, rest) = (
  n,
  omega arith,
  omega arith,
  d,
  Emitted-weaken p (n + 1) (n + 1) limit limit' vs (omega arith) high rest,
)

pub length-Emitted :
    (p : Profile) (next limit : ℕ) (vs : List CanonicalDataPacketView)
    → next ≤ limit
    → Emitted p next limit vs
    → next + length vs ≤ limit
length-Emitted p next limit [] low e = omega arith
length-Emitted p next limit (v ∷ vs) low (n, least, most, d, e) =
    omega (arith, length-Emitted p (n + 1) limit vs (omega arith) e)

-- The state at the end of a run, and what was sent. A run that ends with an error has one more
-- frame in hand.
pub record SenderRun (p : Profile) (next limit : ℕ) (end : SenderEnd) : Type 0 where
  pub kept : IsSender p end.state
  pub at_most_one : end.err ≤ 1
  pub audited : IsAudited end.err end.state
  pub emitted : Emitted p next limit end.sent

module _ (p : Profile) (law : IsProfile p) (mask : ℕ) where
  carry-fits : (st : SenderState) → IsSender p st → CarryFits st.carry_frame
  carry-fits st v = go st.carry_frame v.carry
    where
      go : (c : Option SourceFrameView) → IsCarry p st.reader.buffer c → CarryFits c
      go none w = tt
      go (some view) w = (w.least, omega (arith, w.most, law.room))

  -- Over any passes from a well-formed state with balanced counters, with 1514 bytes wherever memory
  -- is reserved and numbers below 2^64, a run ends in a well-formed state with balanced counters,
  -- with one frame more in hand if it ends by an error; the packets that the port took are
  -- canonical, hold complete frames only, and have strictly increasing sequence numbers.
  pub run_sender-SenderRun :
      (batching : Bool) (st : SenderState) (turns : List Turn)
      → IsSender p st
      → IsAudited 0 st
      → AllReserve turns
      → st.next_data_seq + length turns < 2 ^ 64
      → SenderRun p st.next_data_seq
          (st.next_data_seq + length turns)
          (run_sender p mask batching st turns)
  unfolding run_sender
  run_sender-SenderRun batching st [] v w memory room = record {
    kept = v;
    at_most_one = omega arith;
    audited = w;
    emitted = tt;
  }
  run_sender-SenderRun batching st (t ∷ turns) v w memory room =
      go (sender_turn p mask batching st t)
        (sender_turn-TurnGood p law mask batching st t v memory.0)
        (sender_turn-Audited p mask batching st t law.room (carry-fits st v) w)
        λ st' v' w'. run_sender-SenderRun batching st' turns v' w' memory.1
    where
      weaken :
          (next limit : ℕ) (end : SenderEnd)
          → st.next_data_seq ≤ next
          → limit ≤ st.next_data_seq + length (t ∷ turns)
          → SenderRun p next limit end
          → SenderRun p st.next_data_seq (st.next_data_seq + length (t ∷ turns)) end
      weaken next limit end low high r = record {
        kept = r.kept;
        at_most_one = r.at_most_one;
        audited = r.audited;
        emitted = Emitted-weaken p st.next_data_seq next _ limit end.sent low high r.emitted;
      }

      go :
          (o : Outcome)
          → TurnGood p st.next_data_seq o
          → OutcomeAudited o
          → ((st' : SenderState)
              → IsSender p st'
              → IsAudited 0 st'
              → st'.next_data_seq + length turns < 2 ^ 64
              → SenderRun p st'.next_data_seq
                  (st'.next_data_seq + length turns)
                  (run_sender p mask batching st' turns))
          → SenderRun p st.next_data_seq (st.next_data_seq + length (t ∷ turns)) (elim o [
            | finished st' ↦ record { state = st'; sent = []; err = 0; ended = true }
            | failed st' ↦ record { state = st'; sent = []; err = 1; ended = true }
            | continued st' ↦ run_sender p mask batching st' turns
            | packet st' v ↦
                let end = run_sender p mask batching st' turns in
                record end { sent = if t.sent == 0 then end.sent else v ∷ end.sent }
            | out_of_fuel ↦ record { state = st; sent = []; err = 0; ended = false }
          ])
      go (finished st') good audit rec = record {
        kept = good.0;
        at_most_one = omega arith;
        audited = audit;
        emitted = tt;
      }
      go (failed st') good audit rec = record {
        kept = good.0;
        at_most_one = omega arith;
        audited = audit;
        emitted = tt;
      }
      go (continued st') good audit rec =
          weaken st'.next_data_seq _ _ (omega (arith, good.1)) (omega (arith, good.1))
            (rec st' good.0 audit (omega (arith, good.1)))
      go (packet st' view) good audit rec =
          let up : st'.next_data_seq ≡ st.next_data_seq + 1 = omega (arith, good.2, room) in
          let r = rec st' good.0 audit (omega arith) in
          record {
            kept = r.kept;
            at_most_one = r.at_most_one;
            audited = r.audited;
            emitted =
                if_cases (Emitted p st.next_data_seq (st.next_data_seq + length (t ∷ turns)))
                  (t.sent == 0) _ _
                  (λ _. Emitted-weaken p _ _ _ _ _ (omega arith) (omega arith) r.emitted)
                  (λ _. (
                    st.next_data_seq,
                    omega arith,
                    omega arith,
                    good.1,
                    Emitted-weaken p _ _ _ _ _ (omega arith) (omega arith) r.emitted,
                  ));
          }
      go out_of_fuel good audit rec = elim good [ ]
