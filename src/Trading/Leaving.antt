-- ===== src/Trading/Leaving.antt =====
-- trading/src/execution/matcher.rs: the book that the matching of an order leaves rests as before, with
-- two orders more at most.
use actix_pura.Prelude.{
  ℕ, zero, suc, ◌+◌, ◌≤◌, ◌≡◌, ◌≢◌, ◌⊎◌, refl, sym, ap, ◌∙◌, String, Option, none, some, List, [],
  ◌∷◌, arith, All, All-append, inl, inr, not, ◌&&◌, ◌||◌, Bool-cases, Option-cases, some_same,
}
use mathlib.Core.Path.{subst}
use actix_pura.Prelude.Dict.{lookup, lookup-insert_other}
use actix_pura.Prelude.Int.{ℤ, pos, ◌≤ℤ◌, ◌<ℤ◌, leb_ℤ, ltb_ℤ, min_ℤ, int_laws}
use actix_pura.Trading.Order.{
  Order, OrderSide, OrderType, buy, sell, PriceOps, is_active, remaining_quantity, update_status,
  update_filled_quantity,
}
use actix_pura.Trading.Levels.{Levels, orders_from, orders_upto}
use actix_pura.Trading.Book.{
  OrderBook, side_levels, place, good_price, add_order, remove_order, get_matching_buy_orders,
  get_matching_sell_orders,
}
use actix_pura.Trading.Matcher.{
  Matching, MatchResult, no_matches, trade, traded, put_back, market_sweep, match_market,
  match_limit, limit_sweep, match_by_type, match_order, best_against, orders_against,
  matching_against, settle, is_limit,
}
use actix_pura.Trading.Resting.{RestsAt, AllRest}
use actix_pura.Trading.Taking.{opposite, size-remove_order}
use actix_pura.Trading.Upkeep.{add_order_cases, add_order_ok}
use actix_pura.Trading.Open.{
  set_side_index, total, Every, at-Every, gone-remove_order, still_gone, total-add_order,
}
use actix_pura.Trading.Exchanging.{
  IsOpen, Remains, remove_order-IsOpen, add_order-IsOpen, put_back-IsOpen,
}
use actix_pura.Trading.Ending.{List-cases, trade_takes, against_at}
use actix_pura.Trading.Executing.{matching_start}

module _ {P : Type 0} (f : PriceOps P) where
  set_side_kept :
      (q : Option P) (o : Order P) (b : OrderBook P) → (place f q o b).orders_by_id ≡ b.orders_by_id
  set_side_kept none o b = refl
  set_side_kept (some p) o b = set_side_index f o.side _ b

  absent-add_order :
      (i : String) (o : Order P) (b : OrderBook P)
      → o.order_id ≢ i
      → lookup i b.orders_by_id ≡ none
      → lookup i (add_order f o b).1.orders_by_id ≡ none
  absent-add_order i o b ne h = elim (add_order_cases f o b) [
    | inl refused ↦ rw refused h
    | inr (same, active) ↦ rw (add_order_ok f o b same active) (
        lookup-insert_other o.order_id i o _ ne
        ∙ ap (lookup i) (set_side_kept (good_price f o.price) o b)
        ∙ h)
  ]

  total-remove_order : (i : String) (b : OrderBook P) → total (remove_order f i b).1 ≤ total b
  total-remove_order i b = omega (arith, size-remove_order f buy i b, size-remove_order f sell i b)

module _ {P : Type 0} (f : PriceOps P) (now : ℕ) (uuid : ℕ → String) (i : String) (n : ℕ) where
  -- An order of the book that may trade with the order `i`.
  abbrev Fair : Order P → Type 0
  Fair m = (pos 0 ≤ℤ m.filled_quantity) × Remains m × (m.order_id ≢ i)

  -- The order `i` is not in the book, which rests, with `n` orders at most while it is to trade.
  record Stands (t : Matching P) : Type 0 where
    resting : IsOpen f t.book
    absent : lookup i t.book.orders_by_id ≡ none
    mine : t.order.order_id ≡ i
    filled : pos 0 ≤ℤ t.order.filled_quantity
    few : total t.book ≤ n + 1
    left : (t.remaining_qty ≤ℤ pos 0) ⊎ (total t.book ≤ n)

  absent-put_back :
      (m : Order P) (b : OrderBook P)
      → m.order_id ≢ i
      → lookup i b.orders_by_id ≡ none
      → lookup i (put_back f now uuid m b).orders_by_id ≡ none
  unfolding put_back
  absent-put_back m b ne h = elim (Bool-cases (leb_ℤ (remaining_quantity m) (pos 0))) [
    | inl done ↦ rw done h
    | inr more ↦ rw more (absent-add_order f i m b ne h)
  ]

  trade-Stands :
      (m : Order P) (p : P) (t : Matching P)
      → pos 0 <ℤ t.remaining_qty
      → Fair m
      → Stands t
      → Stands (trade f now uuid m p t)
  unfolding trade traded update_filled_quantity update_status
  trade-Stands m p t more (filled, remains, other) v =
      let q = min_ℤ t.remaining_qty (remaining_quantity m) in
      let some_q : pos 0 ≤ℤ q = ground arith in
      let b = (remove_order f m.order_id t.book).1 in
      let still : total t.book ≤ n = elim v.left [
        | inl over ↦ absurd (omega arith)
        | inr few ↦ few
      ] in
      let (resting, less) =
        put_back-IsOpen f now uuid q m b (gone-remove_order f m.order_id t.book) filled some_q
          (remove_order-IsOpen f m.order_id t.book v.resting) in
      let fewer = total-remove_order f m.order_id t.book in
      record {
        resting = resting;
        absent =
            absent-put_back (traded f now uuid q m) b other
              (still_gone f m.order_id i t.book v.absent);
        mine = v.mine;
        filled = omega (int_laws, v.filled, some_q);
        few = omega (arith, less, fewer, still);
        left = elim (trade_takes f now uuid m p t filled) [
          | inl over ↦ inl over
          | inr same ↦ inr (rw same (omega (arith, fewer, still)))
        ];
      }

  market_sweep-Stands :
      (ms : List (Order P)) (p : P) (t : Matching P)
      → pos 0 <ℤ t.remaining_qty
      → All Fair ms
      → Stands t
      → Stands (market_sweep f now uuid ms p t)
  unfolding market_sweep
  market_sweep-Stands [] p t more a v = v
  market_sweep-Stands (m ∷ ms) p t more a v =
      let s = trade f now uuid m p t in
      let w = trade-Stands m p t more a.0 v in
      elim (Bool-cases (leb_ℤ s.remaining_qty (pos 0))) [
        | inl over ↦ rw over w
        | inr on ↦ rw on (market_sweep-Stands ms p s (ground arith) a.1 w)
      ]

  limit_sweep-Stands :
      (ms : List (Order P)) (t t' : Matching P)
      → All Fair ms
      → Stands t
      → limit_sweep f now uuid ms t ≡ some t'
      → Stands t'
  unfolding limit_sweep
  limit_sweep-Stands [] t t' a v e = subst Stands (some_same e) v
  limit_sweep-Stands (m ∷ ms) t t' a v e =
      elim (Bool-cases (leb_ℤ t.remaining_qty (pos 0) || not (is_active t.order))) [
        | inl over ↦ subst Stands (some_same (rw (over, limit_sweep) at e)) v
        | inr on ↦ elim (Option-cases m.price) [
          | inl unpriced ↦ let e' = rw (on, unpriced, limit_sweep) at e in cc
          | inr (p, priced) ↦
              limit_sweep-Stands ms (trade f now uuid m p t) t' a.1
                (trade-Stands m p t (ground arith) a.0 v) (rw (on, priced, limit_sweep) at e)
        ]
      ]

  orders_trade :
      (d : List (String × Order P)) (s : OrderSide) (k : ℤ) (os : List (Order P))
      → lookup i d ≡ none
      → All (RestsAt f d s k) os
      → All Remains os
      → All Fair os
  orders_trade d s k [] h a r = tt
  orders_trade d s k (m ∷ os) h ((filled, (o, found, _, _)), a) r = (
    (filled, r.0, (λ same. let e = ap (λ j. lookup j d) same in cc)),
    orders_trade d s k os h a r.1,
  )

  levels_trade :
      (d : List (String × Order P)) (s : OrderSide) (l : Levels P)
      → lookup i d ≡ none
      → AllRest f d s l
      → Every Remains l
      → Every Fair l
  levels_trade d s [] h a r = tt
  levels_trade d s ((k, os) ∷ l) h a r =
      (orders_trade d s k os h a.0 r.0, levels_trade d s l h a.1 r.1)

  side_trades : (s : OrderSide) (t : Matching P) → Stands t → Every Fair (side_levels s t.book)
  side_trades buy t v =
      levels_trade t.book.orders_by_id buy t.book.buy_orders v.absent v.resting.buys.rests
        v.resting.remains.0
  side_trades sell t v =
      levels_trade t.book.orders_by_id sell t.book.sell_orders v.absent v.resting.sells.rests
        v.resting.remains.1

  upto-Fair : (k : ℤ) (l : Levels P) → Every Fair l → All Fair (orders_upto k l)
  unfolding orders_upto
  upto-Fair k [] a = tt
  upto-Fair k ((j, os) ∷ l) a = elim (Bool-cases (leb_ℤ j k)) [
    | inl cheap ↦ rw cheap (All-append Fair os _ a.0 (upto-Fair k l a.1))
    | inr dear ↦ rw dear (upto-Fair k l a.1)
  ]

  from-Fair : (k : ℤ) (l : Levels P) → Every Fair l → All Fair (orders_from k l)
  unfolding orders_from
  from-Fair k [] a = tt
  from-Fair k ((j, os) ∷ l) a = elim (Bool-cases (leb_ℤ k j)) [
    | inl dear ↦ rw dear (All-append Fair os _ a.0 (from-Fair k l a.1))
    | inr cheap ↦ rw cheap (from-Fair k l a.1)
  ]

  against-Fair :
      (s : OrderSide) (p : P) (t : Matching P)
      → Stands t
      → All Fair (matching_against f now uuid s p t.book)
  unfolding get_matching_sell_orders get_matching_buy_orders
  against-Fair buy p t v = upto-Fair (f.to_key p) t.book.sell_orders (side_trades sell t v)
  against-Fair sell p t v = from-Fair (f.to_key p) t.book.buy_orders (side_trades buy t v)

  match_market-Stands :
      (k : ℕ) (t t' : Matching P) → Stands t → match_market f now uuid k t ≡ some t' → Stands t'
  unfolding match_market
  match_market-Stands zero t t' v e = cc
  match_market-Stands (suc k) t t' v e =
      elim (Bool-cases (ltb_ℤ (pos 0) t.remaining_qty && is_active t.order)) [
        | inr over ↦ subst Stands (some_same (rw (over, match_market) at e)) v
        | inl on ↦ elim (Option-cases (best_against f now uuid t.order.side t.book)) [
          | inl no_best ↦ subst Stands (some_same (rw (on, no_best, match_market) at e)) v
          | inr (p, best) ↦ elim (List-cases (orders_against f now uuid t.order.side p t.book)) [
            | inl empty ↦ subst Stands (some_same (rw (on, best, empty, match_market) at e)) v
            | inr (m, ms, first) ↦
                let s = t.order.side in
                let at_key = sym (against_at f now uuid s p t.book) ∙ first in
                let fair : All Fair (m ∷ ms) = rw at_key at (
                  at-Every Fair (f.to_key p) (side_levels (opposite s) t.book)
                    (side_trades (opposite s) t v)) in
                match_market-Stands k (market_sweep f now uuid (m ∷ ms) p t) t'
                  (market_sweep-Stands (m ∷ ms) p t (ground arith) fair v)
                  (rw (on, best, first, match_market) at e)
          ]
        ]
      ]

  match_by_type-Stands :
      (k : ℕ) (y : OrderType) (p : Option P) (t t' : Matching P)
      → Stands t
      → match_by_type f now uuid k y p t ≡ some t'
      → Stands t'
  unfolding match_by_type match_limit
  match_by_type-Stands k OrderType.market p t t' v e = match_market-Stands k t t' v e
  match_by_type-Stands k OrderType.limit (some p) t t' v e =
      limit_sweep-Stands _ t t' (against-Fair t.order.side p t v) v e
  match_by_type-Stands k _ _ t t' v e = subst Stands (some_same e) v

  -- What is left of the order is put into the book, if anything.
  settle-IsOpen :
      (t : Matching P)
      → Stands t
      → IsOpen f (settle f now uuid t).1 × (total (settle f now uuid t).1 ≤ n + 2)
  unfolding settle
  settle-IsOpen t v =
      elim (Bool-cases (is_active t.order && ltb_ℤ (pos 0) (remaining_quantity t.order))) [
        | inr over ↦ rw over (v.resting, omega (arith, v.few))
        | inl on ↦ elim (Bool-cases (is_limit t.order.order_type)) [
          | inr cancelled ↦ rw (on, cancelled) (v.resting, omega (arith, v.few))
          | inl rests ↦
              let new : lookup t.order.order_id t.book.orders_by_id ≡ none = rw v.mine v.absent in
              rw (on, rests)
                (
                  add_order-IsOpen f t.order t.book new v.filled (ground arith) v.resting,
                  omega (arith, total-add_order f t.order t.book, v.few),
                )
        ]
      ]

module _ {P : Type 0} (f : PriceOps P) (now : ℕ) (uuid : ℕ → String) where
  -- A new order, of which no more is filled than it asks for, leaves a book that rests as before, with
  -- two orders more at most: what is left of it, and of the last order that it traded with.
  pub match_order-IsOpen :
      (k : ℕ) (b : OrderBook P) (o : Order P) {r : MatchResult P} {b' : OrderBook P} {o' : Order P}
      → IsOpen f b
      → lookup o.order_id b.orders_by_id ≡ none
      → pos 0 ≤ℤ o.filled_quantity
      → Remains o
      → match_order f now uuid k b o ≡ some (r, b', o')
      → IsOpen f b' × (total b' ≤ total b + 2)
  unfolding match_order
  match_order-IsOpen k b o {b' = b'} v new filled remains e = elim (Bool-cases (is_active o)) [
    | inr idle ↦
        let same : (no_matches, b, o) ≡ (_, b', _) = some_same (rw (idle, match_order) at e) in
        subst (λ x. IsOpen f x × (total x ≤ total b + 2)) (ap (λ x. x.1) same) (v, omega arith)
    | inl active ↦
        elim (Option-cases
          (match_by_type f now uuid k o.order_type o.price (matching_start f now uuid b o))) [
            | inl out ↦ let e' = rw (active, out, match_order) at e in cc
            | inr (t, done) ↦
                let same : settle f now uuid t ≡ (_, b', _) =
                  some_same (rw (active, done, match_order) at e) in
                let start : Stands f now uuid o.order_id (total b) (matching_start f now uuid b o) =
                  record {
                    resting = v;
                    absent = new;
                    mine = refl;
                    filled = filled;
                    few = omega arith;
                    left = inr (omega arith);
                  } in
                subst (λ x. IsOpen f x × (total x ≤ total b + 2)) (ap (λ x. x.1) same)
                  (settle-IsOpen f now uuid o.order_id (total b) t (
                    match_by_type-Stands f now uuid o.order_id (total b) k o.order_type o.price
                      (matching_start f now uuid b o) t start done))
          ]
  ]
