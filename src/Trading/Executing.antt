-- ===== src/Trading/Executing.antt =====
-- trading/src/execution/matcher.rs: what is executed for an order, and what is recorded of it.
use actix_pura.Prelude.{
  ℕ, zero, suc, ◌≡◌, refl, ap, ◌∙◌, String, false, Option, some, List, [], ◌∷◌, ◌++◌, arith, ◌⊎◌,
  inl, inr, Bool-cases, Option-cases, length, if_both,
}
use actix_pura.Prelude.Int.{ℤ, pos, ◌+ℤ◌, ◌-ℤ◌, ◌≤ℤ◌, ◌<ℤ◌, leb_ℤ, min_ℤ, int_laws}
use actix_pura.Trading.Order.{
  Order, OrderSide, OrderType, buy, sell, PriceOps, is_active, remaining_quantity,
}
use actix_pura.Trading.Book.{OrderBook}
use actix_pura.Trading.Matcher.{
  Execution, MatchResult, Matching, no_matches, add_execution, add_updated_order,
  create_execution_record, record_of, trade, market_sweep, best_against, orders_against,
  match_market, limit_sweep, match_limit, match_by_type, settle, match_order,
}

move : (r t q : ℤ) → r -ℤ q +ℤ (t +ℤ q) ≡ r +ℤ t
move r t q = omega int_laws

not_leb : (r x : ℤ) → leb_ℤ r x ≡ false → x <ℤ r
not_leb r x h = ground arith

min_leaves : (r x : ℤ) → pos 0 ≤ℤ r -ℤ min_ℤ r x
min_leaves r x = elim (Bool-cases (leb_ℤ r x)) [
  | inl below ↦ rw below (omega int_laws)
  | inr above ↦ rw above (omega (int_laws, not_leb r x above))
]

module _ {P : Type 0} where
  -- The quantity of some executions together.
  pub total_executed : List (Execution P) → ℤ
  total_executed [] = pos 0
  total_executed (e ∷ es) = e.quantity +ℤ total_executed es

  total_executed-snoc :
      (es : List (Execution P)) (e : Execution P)
      → total_executed (es ++ e ∷ []) ≡ total_executed es +ℤ e.quantity
  unfolding total_executed
  total_executed-snoc [] e = omega int_laws
  total_executed-snoc (x ∷ es) e = rw (total_executed-snoc es e) (omega int_laws)

  -- What was to be executed is what remains and what has been executed, and the former is not
  -- negative.
  pub record Accounts (base : ℤ) (s : Matching P) : Type 0 where
    pub balance : s.remaining_qty +ℤ total_executed s.result.executions ≡ base
    pub left : pos 0 ≤ℤ s.remaining_qty

module _ {P : Type 0} (f : PriceOps P) (now : ℕ) (uuid : ℕ → String) where
  record_of_quantity :
      (s : OrderSide) (n : ℕ) (o m : Order P) (p : P) (q : ℤ)
      → (record_of f now uuid s n o m p q).quantity ≡ q
  unfolding create_execution_record
  record_of_quantity buy n o m p q = refl
  record_of_quantity sell n o m p q = refl

  trade-Accounts :
      (base : ℤ) (m : Order P) (p : P) (s : Matching P)
      → Accounts base s
      → Accounts base (trade f now uuid m p s)
  unfolding trade add_updated_order add_execution
  trade-Accounts base m p s a =
      let q = min_ℤ s.remaining_qty (remaining_quantity m) in
      let es = s.result.executions in
      let e = record_of f now uuid s.order.side (length es) s.order m p q in
      record {
        balance =
            ap (λ t. s.remaining_qty -ℤ q +ℤ t)
              (total_executed-snoc es e
                ∙ ap (λ t. total_executed es +ℤ t)
                    (record_of_quantity s.order.side (length es) s.order m p q))
            ∙ move s.remaining_qty (total_executed es) q
            ∙ a.balance;
        left = min_leaves s.remaining_qty (remaining_quantity m);
      }

  market_sweep-Accounts :
      (base : ℤ) (ms : List (Order P)) (p : P) (s : Matching P)
      → Accounts base s
      → Accounts base (market_sweep f now uuid ms p s)
  unfolding market_sweep
  market_sweep-Accounts base [] p s a = a
  market_sweep-Accounts base (m ∷ ms) p s a =
      let a' = trade-Accounts base m p s a in
      if_both (Accounts base) _ a' (market_sweep-Accounts base ms p (trade f now uuid m p s) a')

  match_market-Accounts :
      (base : ℤ) (k : ℕ) (s : Matching P) {s' : Matching P}
      → match_market f now uuid k s ≡ some s'
      → Accounts base s
      → Accounts base s'
  unfolding match_market
  match_market-Accounts base zero s h a = cc
  match_market-Accounts base (suc k) s {s'} h a =
      elim (Option-cases (best_against f now uuid s.order.side s.book)) [
        | inl e ↦ ground arith
        | inr (p, e) ↦
            let ms = orders_against f now uuid s.order.side p s.book in
            ground (
              arith,
              market_sweep-Accounts base ms p s a,
              match_market-Accounts base k (market_sweep f now uuid ms p s) {s' = s'},
            )
      ]

  limit_sweep-Accounts :
      (base : ℤ) (ms : List (Order P)) (s : Matching P) {s' : Matching P}
      → limit_sweep f now uuid ms s ≡ some s'
      → Accounts base s
      → Accounts base s'
  unfolding limit_sweep
  limit_sweep-Accounts base [] s h a = ground arith
  limit_sweep-Accounts base (m ∷ ms) s {s'} h a = elim (Option-cases m.price) [
    | inl e ↦ ground arith
    | inr (p, e) ↦ ground (
      arith,
      trade-Accounts base m p s a,
      limit_sweep-Accounts base ms (trade f now uuid m p s) {s' = s'},
    )
  ]

  match_by_type-Accounts :
      (base : ℤ) (k : ℕ) (t : OrderType) (p : Option P) (s : Matching P) {s' : Matching P}
      → match_by_type f now uuid k t p s ≡ some s'
      → Accounts base s
      → Accounts base s'
  unfolding match_by_type match_limit
  match_by_type-Accounts base k OrderType.market p s h a = match_market-Accounts base k s h a
  match_by_type-Accounts base k OrderType.limit (some p) s h a = limit_sweep-Accounts base _ s h a
  match_by_type-Accounts base k _ _ s h a = ground arith

  settle_executions : (s : Matching P) → (settle f now uuid s).0.executions ≡ s.result.executions
  unfolding settle add_updated_order
  settle_executions s = ground arith

  -- Where the matching of an order starts.
  abbrev pub matching_start : OrderBook P → Order P → Matching P
  matching_start b o = record {
    book = b;
    order = o;
    remaining_qty = remaining_quantity o;
    result = no_matches;
  }

  pub match_order_cases :
      (k : ℕ) (b : OrderBook P) (o : Order P) {r : MatchResult P} {b' : OrderBook P} {o' : Order P}
      → match_order f now uuid k b o ≡ some (r, b', o')
      → (r ≡ no_matches)
        ⊎ ((s : Matching P) × (match_by_type f now uuid k o.order_type o.price (matching_start b o)
              ≡ some s)
            × (r ≡ (settle f now uuid s).0))
  unfolding match_order
  match_order_cases k b o e =
      elim (Option-cases (match_by_type f now uuid k o.order_type o.price (matching_start b o))) [
        | inl q ↦ inl (ground arith)
        | inr (s, q) ↦ elim (Bool-cases (is_active o)) [
          | inl active ↦ inr (s, q, ground arith)
          | inr idle ↦ inl (ground arith)
        ]
      ]

  executed_le :
      (base : ℤ) (s : Matching P) → Accounts base s → total_executed s.result.executions ≤ℤ base
  executed_le base s a = rw (← a.balance) (omega (int_laws, a.left))

  start-Accounts :
      (b : OrderBook P) (o : Order P)
      → pos 0 ≤ℤ remaining_quantity o
      → Accounts (remaining_quantity o) (matching_start b o)
  unfolding total_executed
  start-Accounts b o h = record { balance = omega int_laws; left = h }

  -- However many orders of the book an order meets, in whatever state they are, no more is
  -- executed for it than remained of it at the start.
  pub match_order-executed :
      (k : ℕ) (b : OrderBook P) (o : Order P) {r : MatchResult P} {b' : OrderBook P} {o' : Order P}
      → pos 0 ≤ℤ remaining_quantity o
      → match_order f now uuid k b o ≡ some (r, b', o')
      → total_executed r.executions ≤ℤ remaining_quantity o
  unfolding total_executed
  match_order-executed k b o h e = elim (match_order_cases k b o e) [
    | inl idle ↦ rw idle h
    | inr (s, matched, q) ↦
        rw (q, settle_executions s)
          (executed_le (remaining_quantity o) s (
            match_by_type-Accounts (remaining_quantity o) k o.order_type o.price
              (matching_start b o) matched (start-Accounts b o h)))
  ]
