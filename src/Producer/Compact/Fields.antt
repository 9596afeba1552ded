-- ===== src/Producer/Compact/Fields.antt =====
-- What the fields of the Compact messages say: no cast loses anything, the BBO and the book of one
-- number agree, and the totals of the trades are sums.
use low_latency_data_transfe.Base.{
  ℕ, ◌+◌, ◌-◌, ◌*◌, ◌%◌, ◌^◌, ◌<◌, ◌≡◌, refl, List, [], ◌∷◌, u16, u64, arith, length, map,
}
use low_latency_data_transfe.Producer.{CompactTradeState, Stamps}
use low_latency_data_transfe.Producer.Compact.{
  mid_price_ticks, trade_quantity, add_trade, trade_of, bbo_of, side_of, book_of, book_levels,
}

-- Prices on both sides, best first: offsets are taken from the bids and added to the asks.
abbrev pub bid_prices : ℕ → List ℕ → List ℕ
bid_prices top offsets = top ∷ map (λ o. top - o) offsets

abbrev pub ask_prices : ℕ → List ℕ → List ℕ
ask_prices top offsets = top ∷ map (λ o. top + o) offsets

abbrev pub Descending : List ℕ → Type 0
Descending [] = Unit {0}
Descending (a ∷ []) = Unit {0}
Descending (a ∷ (b ∷ rest)) = (b < a) × Descending (b ∷ rest)

abbrev pub Ascending : List ℕ → Type 0
Ascending [] = Unit {0}
Ascending (a ∷ []) = Unit {0}
Ascending (a ∷ (b ∷ rest)) = (a < b) × Ascending (b ∷ rest)

-- For one number the Compact BBO and order book agree: on both best prices, the ask being the bid and
-- the spread, and on the update's number; and the book's bids fall and its asks rise from the best
-- price on.
pub book_of-bbo_of :
    (s s' : Stamps) (seq : ℕ)
    → ((book_of s seq).bids.top_price_ticks ≡ (bbo_of s' seq).bid_price_ticks)
      × ((book_of s seq).asks.top_price_ticks
          ≡ (bbo_of s' seq).bid_price_ticks + (bbo_of s' seq).spread_ticks)
      × ((book_of s seq).update_id ≡ (bbo_of s' seq).update_id)
      × Descending
          (bid_prices (book_of s seq).bids.top_price_ticks (book_of s seq).bids.price_offset_ticks)
      × Ascending
          (ask_prices (book_of s seq).asks.top_price_ticks (book_of s seq).asks.price_offset_ticks)
unfolding book_of bbo_of side_of mid_price_ticks
book_of-bbo_of s s' seq = omega arith

-- Every field that is cut to its width, as it is without the cut.
pub record IsExact (t : CompactTradeState) (s : Stamps) (seq : ℕ) : Type 0 where
  pub price : (trade_of t s seq).price_ticks ≡ 6500000 + seq % 500 * 50
  pub quantity : (trade_of t s seq).quantity_lots ≡ 1 + seq % 100 * 10
  pub bid : (bbo_of s seq).bid_price_ticks + 50 ≡ 6500000 + seq % 500 * 50
  pub bid_size : (bbo_of s seq).bid_size_lots ≡ 1500 + seq % 50 * 100
  pub ask_size : (bbo_of s seq).ask_size_lots ≡ 1500 + (seq + 7) % 50 * 100
  pub bid_top : (book_of s seq).bids.top_price_ticks + 50 ≡ 6500000 + seq % 500 * 50
  pub ask_top : (book_of s seq).asks.top_price_ticks ≡ 6500050 + seq % 500 * 50
  pub bid_offsets : (book_of s seq).bids.price_offset_ticks ≡ 100 ∷ (200 ∷ (300 ∷ (400 ∷ [])))
  pub ask_offsets : (book_of s seq).asks.price_offset_ticks ≡ 100 ∷ (200 ∷ (300 ∷ (400 ∷ [])))
  pub bid_orders : (bbo_of s seq).bid_order_count ≡ 3 + seq % 10
  pub ask_orders : (bbo_of s seq).ask_order_count ≡ 3 + (seq + 3) % 10
  pub bid_sizes :
      (book_of s seq).bids.size_lots ≡ map (λ i. 1000 + (seq + i) % 40 * 100) book_levels
  pub bid_counts : (book_of s seq).bids.order_count ≡ map (λ i. 2 + (seq + i) % 8) book_levels
  pub ask_sizes :
      (book_of s seq).asks.size_lots ≡ map (λ i. 1000 + (seq + i + 5) % 40 * 100) book_levels
  pub ask_counts : (book_of s seq).asks.order_count ≡ map (λ i. 2 + (seq + i + 5) % 8) book_levels

level-exact : (n : ℕ) → n < 2 ^ 64 → u16 (1000 + u64 n % 40 * 100) ≡ 1000 + n % 40 * 100
level-exact n h = omega arith

count-exact : (n : ℕ) → n < 2 ^ 64 → u16 (2 + u64 n % 8) ≡ 2 + n % 8
count-exact n h = omega arith

bid_level-exact :
    (seq i : ℕ)
    → seq + i < 2 ^ 64
    → u16 (1000 + u64 (seq + i + 0) % 40 * 100) ≡ 1000 + (seq + i) % 40 * 100
bid_level-exact seq i h = omega arith

bid_count-exact :
    (seq i : ℕ) → seq + i < 2 ^ 64 → u16 (2 + u64 (seq + i + 0) % 8) ≡ 2 + (seq + i) % 8
bid_count-exact seq i h = omega arith

five : (f g : ℕ → ℕ) → ((i : ℕ) → i < 5 → f i ≡ g i) → map f book_levels ≡ map g book_levels
five f g h =
    cc (
      h 0 (omega arith),
      h 1 (omega arith),
      h 2 (omega arith),
      h 3 (omega arith),
      h 4 (omega arith),
    )

-- In the Compact messages with numbers below 2^64 - 16, the casts of the following fields lose nothing,
-- and they are what the formulas give over the natural numbers: price and quantity of a trade; the
-- bid price, both sizes and both counts of orders of a best bid and offer; and of both sides of a
-- book the top price, the offsets of the prices, the sizes and the counts of orders.
pub messages-IsExact :
    (t : CompactTradeState) (s : Stamps) (seq : ℕ) → seq + 16 < 2 ^ 64 → IsExact t s seq
unfolding trade_of bbo_of book_of side_of mid_price_ticks trade_quantity
messages-IsExact t s seq h = record {
  price = omega arith;
  quantity = omega arith;
  bid = omega arith;
  bid_size = omega arith;
  ask_size = omega arith;
  bid_top = omega arith;
  ask_top = omega arith;
  bid_offsets = refl;
  ask_offsets = refl;
  bid_orders = omega arith;
  ask_orders = omega arith;
  bid_sizes = five _ _ λ i lt. bid_level-exact seq i (omega arith);
  bid_counts = five _ _ λ i lt. bid_count-exact seq i (omega arith);
  ask_sizes = five _ _ λ i lt. level-exact (seq + i + 5) (omega arith);
  ask_counts = five _ _ λ i lt. count-exact (seq + i + 5) (omega arith);
}

-- The trade state after the trades with these numbers, and what they add up to.
abbrev pub add_trades : CompactTradeState → List ℕ → CompactTradeState
add_trades t [] = t
add_trades t (seq ∷ seqs) = add_trades (add_trade t seq) seqs

abbrev pub sum : (ℕ → ℕ) → List ℕ → ℕ
sum f [] = 0
sum f (seq ∷ seqs) = f seq + sum f seqs

add_trade_lem :
    (t : CompactTradeState) (seq : ℕ)
    → ((add_trade t seq).cumulative_quantity_lots
        ≡ u64 (t.cumulative_quantity_lots + trade_quantity seq))
      × ((add_trade t seq).cumulative_notional_tick_lots
          ≡ u64 (t.cumulative_notional_tick_lots + u64 (mid_price_ticks seq * trade_quantity seq)))
      × ((add_trade t seq).cumulative_trade_count ≡ u64 (t.cumulative_trade_count + 1))
unfolding add_trade
add_trade_lem t seq = (refl, refl, refl)

-- After the trades with any numbers, the Compact trade state holds its former totals, each below
-- 2^64, plus the sum of their quantities, of price times quantity, and their count, modulo 2^64.
pub add_trades-sum :
    (t : CompactTradeState) (seqs : List ℕ)
    → t.cumulative_quantity_lots < 2 ^ 64
    → t.cumulative_notional_tick_lots < 2 ^ 64
    → t.cumulative_trade_count < 2 ^ 64
    → let t' = add_trades t seqs in
      (t'.cumulative_quantity_lots ≡ u64 (t.cumulative_quantity_lots + sum trade_quantity seqs))
      × (t'.cumulative_notional_tick_lots
          ≡ u64 (
              t.cumulative_notional_tick_lots
              + sum (λ seq. mid_price_ticks seq * trade_quantity seq) seqs))
      × (t'.cumulative_trade_count ≡ u64 (t.cumulative_trade_count + length seqs))
add_trades-sum t [] quantity notional count = omega arith
add_trades-sum t (seq ∷ seqs) quantity notional count =
    let (q, n, c) =
      add_trades-sum (add_trade t seq) seqs (omega (arith, (add_trade_lem t seq).0))
        (omega (arith, (add_trade_lem t seq).1)) (omega (arith, (add_trade_lem t seq).2)) in
    (
      omega (arith, q, (add_trade_lem t seq).0),
      omega (arith, n, (add_trade_lem t seq).1),
      omega (arith, c, (add_trade_lem t seq).2),
    )
