-- ===== src/Trading/Settling.antt =====
-- trading/src/execution/matcher.rs: the rounds of `continuous_match` come to an end, as each takes more
-- orders out of the book than it puts back.
use actix_pura.Prelude.{
  ℕ, zero, suc, ◌<◌, ◌≡◌, refl, ap, ◌∙◌, String, Option, none, some, List, [], ◌∷◌, arith, inl, inr,
  true, false, ◌⊎◌, ◌≢◌, Bool-cases, Option-cases,
}
use mathlib.Core.Path.{subst}
use actix_pura.Prelude.Int.{ℤ, eq_ℤ, eq_ℤ→eq}
use actix_pura.Trading.Order.{Order, PriceOps}
use actix_pura.Trading.Levels.{Levels, orders_at, first_key, last_key}
use actix_pura.Trading.Ascending.{IsValid, IsBook, Above-IsBook}
use actix_pura.Trading.Book.{
  OrderBook, best_buy_price, best_sell_price, get_buy_orders_at_price, get_sell_orders_at_price,
}
use actix_pura.Trading.Matcher.{MatchResult, no_matches}
use actix_pura.Trading.Continuous.{
  crossing, exchange, continuous_round, continuous_loop, continuous_match, first_pair,
}
use actix_pura.Trading.Open.{total}
use actix_pura.Trading.Exchanging.{IsOpen, exchange-IsOpen}

module _ {P : Type 0} (f : PriceOps P) where
  -- One side has no orders, or the best prices do not cross, or the key of a best level does not come
  -- back from the price that is made of it, so that its orders are not found.
  pub data IsSettled (b : OrderBook P) : Type 0 where
    no_buyer : last_key b.buy_orders ≡ none → IsSettled b
    no_seller : first_key b.sell_orders ≡ none → IsSettled b
    uncrossed :
        (k j : ℤ)
        → last_key b.buy_orders ≡ some k
        → first_key b.sell_orders ≡ some j
        → f.at_least (f.of_key k) (f.of_key j) ≡ false
        → IsSettled b
    rounded_buy : (k : ℤ) → last_key b.buy_orders ≡ some k → f.to_key (f.of_key k) ≢ k → IsSettled b
    rounded_sell :
        (j : ℤ) → first_key b.sell_orders ≡ some j → f.to_key (f.of_key j) ≢ j → IsSettled b

  at_last : (k : ℤ) (l : Levels P) → IsBook f l → last_key l ≡ some k → orders_at k l ≢ []
  unfolding last_key orders_at
  at_last k [] v e = cc
  at_last k ((j, os) ∷ []) v e =
      let found : eq_ℤ k j ≡ true = ground arith in
      λ none_there. v.0 (rw (found, orders_at) at none_there)
  at_last k ((j, os) ∷ (i, ps) ∷ l) v e = elim (Bool-cases (eq_ℤ k j)) [
    | inl same ↦ λ none_there. v.0 (rw (same, orders_at) at none_there)
    | inr other ↦ λ none_there.
        at_last k ((i, ps) ∷ l) (Above-IsBook f j ((i, ps) ∷ l) v.2) e
          (rw (other, orders_at) at none_there)
  ]

  at_first : (k : ℤ) (l : Levels P) → IsBook f l → first_key l ≡ some k → orders_at k l ≢ []
  unfolding first_key orders_at
  at_first k [] v e = cc
  at_first k ((j, os) ∷ l) v e =
      let found : eq_ℤ k j ≡ true = ground arith in
      λ none_there. v.0 (rw (found, orders_at) at none_there)

module _ {P : Type 0} (f : PriceOps P) (now : ℕ) (uuid : ℕ → String) where
  no_pair :
      (q : P) (xs ys : List (Order P))
      → first_pair f now uuid q xs ys ≡ none
      → (xs ≡ []) ⊎ (ys ≡ [])
  no_pair q [] ys e = inl refl
  no_pair q (x ∷ xs) [] e = inr refl
  no_pair q (x ∷ xs) (y ∷ ys) e = cc

  idle-IsSettled : (b : OrderBook P) → IsValid f b → crossing f now uuid b ≡ none → IsSettled f b
  unfolding crossing best_buy_price best_sell_price get_buy_orders_at_price get_sell_orders_at_price
  idle-IsSettled b v e = elim (Option-cases (last_key b.buy_orders)) [
    | inl no_buy ↦ no_buyer no_buy
    | inr (k, best) ↦ elim (Option-cases (first_key b.sell_orders)) [
      | inl no_sell ↦ no_seller no_sell
      | inr (j, best') ↦ elim (Bool-cases (f.at_least (f.of_key k) (f.of_key j))) [
        | inr far ↦ uncrossed k j best best' far
        | inl near ↦ elim (Bool-cases (eq_ℤ (f.to_key (f.of_key k)) k)) [
          | inr lost ↦ rounded_buy k best (λ h. ground (arith, h, lost))
          | inl back ↦ elim (Bool-cases (eq_ℤ (f.to_key (f.of_key j)) j)) [
            | inr lost ↦ rounded_sell j best' (λ h. ground (arith, h, lost))
            | inl back' ↦
                let e' : first_pair f now uuid (f.of_key j)
                      (orders_at (f.to_key (f.of_key k)) b.buy_orders)
                      (orders_at (f.to_key (f.of_key j)) b.sell_orders)
                    ≡ none =
                  ground (arith, best, best', near) in
                elim (no_pair (f.of_key j) _ _ e') [
                  | inl empty ↦ absurd (
                      at_last f k b.buy_orders v.buys best
                        (rw (eq_ℤ→eq (f.to_key (f.of_key k)) k back) at empty))
                  | inr empty ↦ absurd (
                      at_first f j b.sell_orders v.sells best'
                        (rw (eq_ℤ→eq (f.to_key (f.of_key j)) j back') at empty))
                ]
          ]
        ]
      ]
    ]
  ]

  first_pair-some :
      (q p : P) (o m : Order P) (q' : P) (xs ys : List (Order P))
      → first_pair f now uuid q xs ys ≡ some (q', o, m)
      → ((os : List (Order P)) × (xs ≡ o ∷ os)) × ((ms : List (Order P)) × (ys ≡ m ∷ ms))
  first_pair-some q p o m q' (x ∷ xs) (y ∷ ys) e =
      let same_o : x ≡ o = cc in let same_m : y ≡ m = cc in ((xs, rw same_o), (ys, rw same_m))
  first_pair-some q p o m q' [] ys e = cc
  first_pair-some q p o m q' (x ∷ xs) [] e = cc

  -- The orders that a round lets trade are the first of their levels.
  crossing_first :
      (b : OrderBook P) (q : P) (o m : Order P)
      → crossing f now uuid b ≡ some (q, o, m)
      → (k j : ℤ) × ((os : List (Order P)) × (orders_at k b.buy_orders ≡ o ∷ os))
        × ((ms : List (Order P)) × (orders_at j b.sell_orders ≡ m ∷ ms))
  unfolding crossing
  crossing_first b q o m e = elim (Option-cases (best_buy_price f b)) [
    | inl no_buy ↦ absurd (ground arith)
    | inr (p, best) ↦ elim (Option-cases (best_sell_price f b)) [
      | inl no_sell ↦ absurd (ground arith)
      | inr (p', best') ↦ elim (Bool-cases (f.at_least p p')) [
        | inr apart ↦ absurd (ground arith)
        | inl cross ↦
            let e' : first_pair f now uuid p' (get_buy_orders_at_price f p b)
                  (get_sell_orders_at_price f p' b)
                ≡ some (q, o, m) =
              ground arith in
            let (first_o, first_m) = first_pair-some p' p o m q _ _ e' in
            (
              f.to_key p,
              f.to_key p',
              unfold get_buy_orders_at_price in first_o,
              unfold get_sell_orders_at_price in first_m,
            )
      ]
    ]
  ]

  round-IsOpen :
      (b : OrderBook P) (r : MatchResult P) {b' : OrderBook P} {r' : MatchResult P}
      → IsOpen f b
      → continuous_round f now uuid b r ≡ some (b', r')
      → IsOpen f b' × (total b' < total b)
  unfolding continuous_round
  round-IsOpen b r {b'} {r'} v e = elim (Option-cases (crossing f now uuid b)) [
    | inl idle ↦ cc
    | inr ((q, o, m), found) ↦
        let (k, j, (os, first_o), (ms, first_m)) = crossing_first b q o m found in
        let done : exchange f now uuid q o m b r ≡ (b', r') = cc in
        let same : (exchange f now uuid q o m b r).0 ≡ b' = ap (λ x. x.0) done in
        let (after, less) = exchange-IsOpen f now uuid q k j b r v first_o first_m in
        (subst (IsOpen f) same after, subst (λ x. total x < total b) same less)
  ]

  loop_step :
      (k : ℕ) (b b' : OrderBook P) (r r' : MatchResult P)
      → continuous_round f now uuid b r ≡ some (b', r')
      → continuous_loop f now uuid (suc k) b r ≡ continuous_loop f now uuid k b' r'
  unfolding continuous_loop
  loop_step k b b' r r' e = ground arith

  loop_stop :
      (k : ℕ) (b : OrderBook P) (r : MatchResult P)
      → continuous_round f now uuid b r ≡ none
      → continuous_loop f now uuid (suc k) b r ≡ some (b, r)
  unfolding continuous_loop
  loop_stop k b r e = ground arith

  -- A round that ends finds nothing to trade.
  pub round_idle :
      (b : OrderBook P) (r : MatchResult P) (c : Option (P × Order P × Order P))
      → (elim c [ none ↦ none | some (q, o, m) ↦ some (exchange f now uuid q o m b r) ]) ≡ none
      → c ≡ none
  round_idle b r none e = refl
  round_idle b r (some (q, o, m)) e = cc

  loop_ends :
      (k : ℕ) (b : OrderBook P) (r : MatchResult P)
      → IsOpen f b
      → total b < k
      → (b' : OrderBook P) × (r' : MatchResult P) × (continuous_loop f now uuid k b r
          ≡ some (b', r'))
        × IsOpen f b'
        × (crossing f now uuid b' ≡ none)
  loop_ends zero b r v h = absurd (omega arith)
  loop_ends (suc k) b r v h = elim (Option-cases (continuous_round f now uuid b r)) [
    | inl over ↦ (
      b,
      r,
      loop_stop k b r over,
      v,
      unfold continuous_round in round_idle b r (crossing f now uuid b) over,
    )
    | inr ((b1, r1), e) ↦
        let (v1, less) = round-IsOpen b r v e in
        let (b', r', ends, v', stopped) = loop_ends k b1 r1 v1 (omega (arith, less)) in
        (b', r', loop_step k b b1 r r1 e ∙ ends, v', stopped)
  ]

  -- With more rounds than there are orders in the book continuous matching ends with a result. In
  -- the book that is left one side is empty, or the price of the best buy level is not at least
  -- that of the best sell level, or the key of one of these levels does not come back from the
  -- price that is made of it, so that its orders are not found. The orders rested where the index
  -- has them, none overfilled, and still do.
  pub continuous_match_ends :
      (k : ℕ) (b : OrderBook P)
      → IsOpen f b
      → total b < k
      → (b' : OrderBook P) × (r : MatchResult P) × (continuous_match f now uuid k b ≡ some (b', r))
        × IsOpen f b'
        × IsSettled f b'
  unfolding continuous_match
  continuous_match_ends k b v h =
      let (b', r', ends, v', idle) = loop_ends k b no_matches v h in
      (b', r', ends, v', idle-IsSettled b' v'.buys.valid idle)
