-- ===== src/Trading/Exchanging.antt =====
-- trading/src/execution/matcher.rs: a round of `continuous_match` takes more orders out of the book
-- than it puts back.
use actix_pura.Prelude.{
  ℕ, ◌+◌, ◌≤◌, ◌<◌, ◌≡◌, refl, ap, String, none, List, ◌∷◌, arith, All, inl, inr, Bool-cases, true,
}
use actix_pura.Prelude.Dict.{lookup}
use actix_pura.Prelude.Int.{ℤ, pos, ◌≤ℤ◌, leb_ℤ, min_ℤ, int_laws}
use actix_pura.Trading.Order.{
  Order, OrderSide, buy, sell, PriceOps, remaining_quantity, update_filled_quantity, update_status,
}
use actix_pura.Trading.Levels.{Levels, orders_at}
use actix_pura.Trading.Book.{OrderBook, side_levels, add_order, remove_order}
use actix_pura.Trading.Matcher.{MatchResult, traded, put_back}
use actix_pura.Trading.Resting.{RestsAt, at-AllRest}
use actix_pura.Trading.Taking.{
  size, IsResting, remove_order-IsResting, size-remove_order, first_taken,
}
use actix_pura.Trading.Placing.{add_order-IsResting}
use actix_pura.Trading.Ending.{traded_in_full}
use actix_pura.Trading.Continuous.{exchange}
use actix_pura.Trading.Open.{
  total, Every, EveryOrder, at-Every, remove_order-Every, add_order-Every, total-add_order,
  gone-remove_order, still_gone,
}

-- An order of which something, or nothing, remains.
abbrev pub Remains : {P : Type 0} → Order P → Type 0
Remains o = pos 0 ≤ℤ remaining_quantity o

module _ {P : Type 0} (f : PriceOps P) where
  -- Both sides rest where the index has them, and no order is overfilled.
  pub record IsOpen (b : OrderBook P) : Type 0 where
    pub buys : IsResting f buy b
    pub sells : IsResting f sell b
    pub remains : EveryOrder Remains b

  pub remove_order-IsOpen :
      (i : String) (b : OrderBook P) → IsOpen b → IsOpen (remove_order f i b).1
  remove_order-IsOpen i b v = record {
    buys = remove_order-IsResting f buy i b v.buys;
    sells = remove_order-IsResting f sell i b v.sells;
    remains = remove_order-Every f Remains i b v.remains;
  }

  pub add_order-IsOpen :
      (o : Order P) (b : OrderBook P)
      → lookup o.order_id b.orders_by_id ≡ none
      → pos 0 ≤ℤ o.filled_quantity
      → Remains o
      → IsOpen b
      → IsOpen (add_order f o b).1
  add_order-IsOpen o b new h r v = record {
    buys = add_order-IsResting f buy o b new h v.buys;
    sells = add_order-IsResting f sell o b new h v.sells;
    remains = add_order-Every f Remains o b r v.remains;
  }

  -- The orders at a key of a side rest there.
  at-RestsAt :
      (s : OrderSide) (k : ℤ) {m : Order P} {ms : List (Order P)} (b : OrderBook P)
      → IsResting f s b
      → orders_at k (side_levels s b) ≡ m ∷ ms
      → RestsAt f b.orders_by_id s k m
  at-RestsAt s k {m} {ms} b r e =
      let all : All (RestsAt f b.orders_by_id s k) (m ∷ ms) =
        rw e at (at-AllRest f b.orders_by_id s k (side_levels s b) r.rests) in
      all.0

  at-Remains :
      (k : ℤ) {m : Order P} {ms : List (Order P)} (l : Levels P)
      → Every Remains l
      → orders_at k l ≡ m ∷ ms
      → Remains m
  at-Remains k {m} {ms} l a e =
      let all : All Remains (m ∷ ms) = rw e at (at-Every Remains k l a) in all.0

  -- The removal of a resting order leaves the other side as it is.
  sells_kept :
      (k : ℤ) (m : Order P) (b : OrderBook P)
      → RestsAt f b.orders_by_id buy k m
      → (remove_order f m.order_id b).1.sell_orders ≡ b.sell_orders
  unfolding remove_order
  sells_kept k m b (h, (o, found, side, key)) = rw (found, remove_order) (rw side refl)

module _ {P : Type 0} (f : PriceOps P) (now : ℕ) (uuid : ℕ → String) where
  traded-filled :
      (n : ℤ) (o : Order P)
      → pos 0 ≤ℤ o.filled_quantity
      → pos 0 ≤ℤ n
      → pos 0 ≤ℤ (traded f now uuid n o).filled_quantity
  unfolding traded update_filled_quantity update_status
  traded-filled n o h k = omega int_laws

  pub traded_id : (n : ℤ) (o : Order P) → (traded f now uuid n o).order_id ≡ o.order_id
  unfolding traded update_filled_quantity update_status
  traded_id n o = refl

  -- What is put back of an order after a trade, if anything.
  pub put_back-IsOpen :
      (n : ℤ) (o : Order P) (b : OrderBook P)
      → lookup o.order_id b.orders_by_id ≡ none
      → pos 0 ≤ℤ o.filled_quantity
      → pos 0 ≤ℤ n
      → IsOpen f b
      → IsOpen f (put_back f now uuid (traded f now uuid n o) b)
        × (total (put_back f now uuid (traded f now uuid n o) b) ≤ total b + 1)
  unfolding put_back
  put_back-IsOpen n o b new h k v =
      let x = traded f now uuid n o in
      elim (Bool-cases (leb_ℤ (remaining_quantity x) (pos 0))) [
        | inl done ↦ rw done (v, omega arith)
        | inr more ↦ rw more (
          add_order-IsOpen f x b (rw (traded_id n o) new) (traded-filled n o h k) (ground arith) v,
          total-add_order f x b,
        )
      ]

  put_back_done :
      (o : Order P) (b : OrderBook P)
      → leb_ℤ (remaining_quantity o) (pos 0) ≡ true
      → put_back f now uuid o b ≡ b
  unfolding put_back
  put_back_done o b h = rw h

  filled_up :
      (n : ℤ) (o : Order P)
      → pos 0 ≤ℤ o.filled_quantity
      → n ≡ remaining_quantity o
      → leb_ℤ (remaining_quantity (traded f now uuid n o)) (pos 0) ≡ true
  unfolding traded update_filled_quantity update_status remaining_quantity
  filled_up n o h e = rw e (traded_in_full o.quantity o.filled_quantity h)

  -- A book without two orders, when the rest of one of them at most comes back.
  exchanged :
      (o m : Order P) (b : OrderBook P)
      → lookup o.order_id b.orders_by_id ≡ none
      → lookup m.order_id b.orders_by_id ≡ none
      → pos 0 ≤ℤ o.filled_quantity
      → pos 0 ≤ℤ m.filled_quantity
      → Remains o
      → Remains m
      → IsOpen f b
      → (let n = min_ℤ (remaining_quantity o) (remaining_quantity m) in
          let b' =
            put_back f now uuid
              (traded f now uuid n m)
              (put_back f now uuid (traded f now uuid n o) b) in
          IsOpen f b' × (total b' ≤ total b + 1))
  exchanged o m b new_o new_m ho hm ro rm v =
      let n = min_ℤ (remaining_quantity o) (remaining_quantity m) in
      let some_n : pos 0 ≤ℤ n = ground arith in
      elim (Bool-cases (leb_ℤ (remaining_quantity o) (remaining_quantity m))) [
        | inl less ↦
            let all : n ≡ remaining_quantity o = ground arith in
            rw (put_back_done (traded f now uuid n o) b (filled_up n o ho all))
              (put_back-IsOpen n m b new_m hm some_n v)
        | inr more ↦
            let all : n ≡ remaining_quantity m = ground arith in
            rw (put_back_done (traded f now uuid n m) _ (filled_up n m hm all))
              (put_back-IsOpen n o b new_o ho some_n v)
      ]

  -- A round over the first orders of both sides takes more orders out than it puts back.
  pub exchange-IsOpen :
      (q : P) (k j : ℤ) {o m : Order P} {os ms : List (Order P)} (b : OrderBook P)
      (r : MatchResult P)
      → IsOpen f b
      → orders_at k b.buy_orders ≡ o ∷ os
      → orders_at j b.sell_orders ≡ m ∷ ms
      → IsOpen f (exchange f now uuid q o m b r).0
        × (total (exchange f now uuid q o m b r).0 < total b)
  unfolding exchange
  exchange-IsOpen q k j {o} {m} {os} {ms} b r v first_o first_m =
      let rests_o = at-RestsAt f buy k b v.buys first_o in
      let rests_m = at-RestsAt f sell j b v.sells first_m in
      let b1 = (remove_order f o.order_id b).1 in
      let b2 = (remove_order f m.order_id b1).1 in
      let v1 = remove_order-IsOpen f o.order_id b v in
      let v2 = remove_order-IsOpen f m.order_id b1 v1 in
      let same = sells_kept f k o b rests_o in
      let first_m1 : orders_at j b1.sell_orders ≡ m ∷ ms = rw same first_m in
      let buys : size b1.buy_orders < size b.buy_orders = first_taken f buy k b v.buys first_o in
      let sells : size b2.sell_orders < size b1.sell_orders =
        first_taken f sell j b1 v1.sells first_m1 in
      let kept : size b2.buy_orders ≤ size b1.buy_orders = size-remove_order f buy m.order_id b1 in
      let (after, few) =
        exchanged o m b2 (still_gone f m.order_id o.order_id b1 (gone-remove_order f o.order_id b))
          (gone-remove_order f m.order_id b1) rests_o.0 rests_m.0
          (at-Remains f k b.buy_orders v.remains.0 first_o)
          (at-Remains f j b.sell_orders v.remains.1 first_m) v2 in
      let equal : size b1.sell_orders ≡ size b.sell_orders = ap size same in
      (after, omega (arith, few, buys, sells, kept, equal))
