-- ===== src/Producer.antt =====
-- harness/src/producer.cpp: the choice of the message and the loop of `main`. The builders of the two
-- message profiles, which the build selects, are an interface. The clock is read by the rounds: its
-- readings are their argument.
pub mod Compact
pub mod Raw
pub mod Published
pub mod Options
pub mod Program
pub mod Ends
use low_latency_data_transfe.Base.{
  ℕ, ◌+◌, ◌%◌, ◌^◌, ◌<◌, ◌≤◌, ◌≡◌, List, [], ◌∷◌, Bool, true, false, ◌&&◌, not, Option, none, some,
  ltb, ◌==◌, if◌then◌else◌, u64, take, length, bit_and, ◌-◌,
}
use low_latency_data_transfe.Message.{Profile}
use low_latency_data_transfe.Ring.{Region, publish}
use low_latency_data_transfe.Receiver.Writer.{IsFrame}

-- `CompactTradeState`; the Raw profile has none, and leaves it alone.
pub record CompactTradeState : Type 0 where
  pub cumulative_quantity_lots : ℕ
  pub cumulative_notional_tick_lots : ℕ
  pub cumulative_trade_count : ℕ

abbrev pub no_trades : CompactTradeState
no_trades = record {
  cumulative_quantity_lots = 0;
  cumulative_notional_tick_lots = 0;
  cumulative_trade_count = 0;
}

-- The two readings of `util::now_ns` that a builder makes.
pub record Stamps : Type 0 where
  pub exchange_ts_ns : ℕ
  pub send_ts_ns : ℕ

-- What a builder leaves: the trade state, the memory `buf`, and the size it returns.
pub record Built : Type 0 where
  pub trade_state : CompactTradeState
  pub buffer : List ℕ
  pub len : ℕ

abbrev pub Builder : Type 0
Builder = CompactTradeState → Stamps → ℕ → List ℕ → Built

pub record Builders : Type 0 where
  pub build_trade : Builder
  pub build_bbo : Builder
  pub build_book : Builder

-- What the transport relies on: a complete frame that carries the number stands at the front.
pub record IsBuilt (p : Profile) (seq room : ℕ) (b : Built) : Type 0 where
  pub size : length b.buffer ≡ room
  pub len : length (take b.len b.buffer) ≡ b.len
  pub frame : IsFrame p (take b.len b.buffer)
  pub seq_id : p.seq_id (take b.len b.buffer) ≡ seq

abbrev pub IsBuilder : Profile → Builder → Type 0
IsBuilder p build =
    (t : CompactTradeState) (s : Stamps) (seq : ℕ) (buf : List ℕ)
    → seq < 2 ^ 64
    → length buf ≡ p.max_frame
    → IsBuilt p seq p.max_frame (build t s seq buf)

pub record IsBuilders (p : Profile) (b : Builders) : Type 0 where
  pub build_trade : IsBuilder p b.build_trade
  pub build_bbo : IsBuilder p b.build_bbo
  pub build_book : IsBuilder p b.build_book

pub data Kind : Type 0 where
  trade bbo book mixed : Kind

-- `is_power_of_two`
unfoldable pub is_power_of_two : ℕ → Bool
is_power_of_two x = not (x == 0) && bit_and x (x - 1) == 0

-- The first `switch` of `build`.
unfoldable pub choose : Kind → ℕ → Kind
choose mixed seq = if seq % 3 == 0 then trade else if seq % 3 == 1 then bbo else book
choose trade seq = trade
choose bbo seq = bbo
choose book seq = book

-- The second one.
unfoldable pub build_kind : Builders → Kind → Builder
build_kind b trade = b.build_trade
build_kind b bbo = b.build_bbo
build_kind b book = b.build_book
build_kind b mixed = b.build_book

unfoldable pub build : Builders → Kind → Builder
unfolding choose build_kind
build b kind t s seq buf = build_kind b (choose kind seq) t s seq buf

-- The locals of `main` that live across rounds, with the ring and the state of the builders.
pub record ProducerState : Type 0 where
  pub seq : ℕ
  pub next_send : ℕ
  pub trade_state : CompactTradeState
  pub frame : List ℕ
  pub region : Region

-- What a round meets: the readings of the clock in the waiting loop, and in the builder.
pub record Round : Type 0 where
  pub readings : List ℕ
  pub stamps : Stamps

-- `while (util::now_ns() < next_send)`: whether the readings end it.
unfoldable pub wait : ℕ → List ℕ → Bool
wait next_send [] = false
wait next_send (now ∷ readings) = elim (ltb now next_send) [
  | true ↦ wait next_send readings
  | false ↦ true
]

module _ (b : Builders) (kind : Kind) (mask interval_ns : ℕ) where
  -- From `++seq` to the end of the round.
  unfoldable pub send : ProducerState → Stamps → ProducerState
  send st s =
      let seq = u64 (st.seq + 1) in
      let built = build b kind st.trade_state s seq st.frame in
      record st {
        seq = seq;
        trade_state = built.trade_state;
        frame = built.buffer;
        region = publish st.region mask built.buffer built.len;
      }

  -- A round; `none` while it waits.
  unfoldable pub produce : ProducerState → Round → Option ProducerState
  unfolding send wait
  produce st round =
      if interval_ns == 0
      then some (send st round.stamps)
      else if wait st.next_send round.readings
      then some (send (record st { next_send = u64 (st.next_send + interval_ns) }) round.stamps)
      else none

  -- `while (cfg.count == 0 || seq < cfg.count)`, over the rounds that there are.
  unfoldable pub run_producer : ℕ → ProducerState → List Round → ProducerState
  unfolding produce
  run_producer count st [] = st
  run_producer count st (round ∷ rounds) =
      if not (count == 0) && not (ltb st.seq count)
      then st
      else (elim (produce st round) [ none ↦ st | some st' ↦ run_producer count st' rounds ])
