-- ===== src/Trading/Taking.antt =====
-- trading/src/execution/order_book.rs: a removal keeps a side of the book resting where the index has
-- it, and makes it smaller.
use actix_pura.Prelude.{
  ℕ, ◌+◌, ◌≤◌, ◌<◌, ◌≡◌, refl, String, some, List, [], ◌∷◌, arith, All, length, inl, inr,
  Bool-cases, Option-cases,
}
use actix_pura.Prelude.Dict.{lookup, remove}
use actix_pura.Prelude.Int.{ℤ, eq_ℤ}
use actix_pura.Trading.Order.{Order, OrderSide, buy, sell, PriceOps}
use actix_pura.Trading.Levels.{Levels, orders_at, without_id, keep_level, remove_at}
use actix_pura.Trading.Book.{OrderBook, side_levels, set_side, remove_order}
use actix_pura.Trading.Ascending.{IsValid}
use actix_pura.Trading.Upkeep.{remove_order-IsValid}
use actix_pura.Trading.Resting.{key_of, RestsAt, AllRest, at-AllRest, side-AllRest, remove-AllRest}

-- The side of the book that an order meets.
abbrev pub opposite : OrderSide → OrderSide
opposite OrderSide.buy = sell
opposite OrderSide.sell = buy

module _ {P : Type 0} where
  -- The number of orders in the levels.
  unfoldable pub size : Levels P → ℕ
  size [] = 0
  size ((k, os) ∷ l) = length os + size l

  length-without_id : (i : String) (os : List (Order P)) → length (without_id i os) ≤ length os
  unfolding without_id
  length-without_id i [] = omega arith
  length-without_id i (o ∷ os) = ground (arith, length-without_id i os)

  size-keep_level :
      (k : ℤ) (os : List (Order P)) (l : Levels P) → size (keep_level k os l) ≡ length os + size l
  unfolding size
  size-keep_level k [] l = omega arith
  size-keep_level k (o ∷ os) l = refl

  size-remove_at : (k : ℤ) (i : String) (l : Levels P) → size (remove_at k i l) ≤ size l
  unfolding size remove_at
  size-remove_at k i [] = omega arith
  size-remove_at k i ((j, os) ∷ l) =
      ground
        (arith, size-keep_level j (without_id i os) l, length-without_id i os, size-remove_at k i l)

  length-without_first :
      (m : Order P) (ms : List (Order P)) → length (without_id m.order_id (m ∷ ms)) ≤ length ms
  unfolding without_id
  length-without_first m ms = ground (arith, length-without_id m.order_id ms)

  -- The first order of a level is removed.
  pub size-remove_first :
      (k : ℤ) {m : Order P} {ms : List (Order P)} (l : Levels P)
      → orders_at k l ≡ m ∷ ms
      → size (remove_at k m.order_id l) < size l
  unfolding size remove_at orders_at
  size-remove_first k [] e = cc
  size-remove_first k {m} {ms} ((j, os) ∷ l) e = elim (Bool-cases (eq_ℤ k j)) [
    | inl eq ↦
        let first : os ≡ m ∷ ms = rw eq at e in
        rw (eq, first, size-keep_level j (without_id m.order_id (m ∷ ms)) l)
          (omega (arith, length-without_first m ms))
    | inr ne ↦
        let rest : orders_at k l ≡ m ∷ ms = rw ne at e in
        rw ne (omega (arith, size-remove_first k l rest))
  ]

module _ {P : Type 0} (f : PriceOps P) where
  -- The orders of a side rest where the index has them.
  pub record IsResting (s : OrderSide) (b : OrderBook P) : Type 0 where
    pub valid : IsValid f b
    pub rests : AllRest f b.orders_by_id s (side_levels s b)

  abbrev removed_from : OrderSide → ℤ → String → OrderBook P → OrderBook P
  removed_from t k i b =
      let b' = record b { orders_by_id = remove i b.orders_by_id } in
      set_side t (remove_at k i (side_levels t b')) b'

  removed_from-AllRest :
      (s t : OrderSide) (i : String) {o : Order P} (b : OrderBook P)
      → lookup i b.orders_by_id ≡ some o
      → o.side ≡ t
      → IsResting s b
      → AllRest f
          (removed_from t (key_of f o) i b).orders_by_id
          s
          (side_levels s (removed_from t (key_of f o) i b))
  removed_from-AllRest buy buy i b e side r =
      remove-AllRest f b.orders_by_id buy _ i b.buy_orders e refl r.valid.buys r.rests
  removed_from-AllRest sell sell i b e side r =
      remove-AllRest f b.orders_by_id sell _ i b.sell_orders e refl r.valid.sells r.rests
  removed_from-AllRest buy sell i b e side r =
      side-AllRest f b.orders_by_id buy i b.buy_orders e (λ q. cc) r.rests
  removed_from-AllRest sell buy i b e side r =
      side-AllRest f b.orders_by_id sell i b.sell_orders e (λ q. cc) r.rests

  size-removed_from :
      (s t : OrderSide) (k : ℤ) (i : String) (b : OrderBook P)
      → size (side_levels s (removed_from t k i b)) ≤ size (side_levels s b)
  size-removed_from buy buy k i b = size-remove_at k i b.buy_orders
  size-removed_from sell sell k i b = size-remove_at k i b.sell_orders
  size-removed_from buy sell k i b = omega arith
  size-removed_from sell buy k i b = omega arith

  -- Removing an order, found or not, leaves each side of the book resting where the index has it.
  pub remove_order-IsResting :
      (s : OrderSide) (i : String) (b : OrderBook P)
      → IsResting s b
      → IsResting s (remove_order f i b).1
  unfolding remove_order
  remove_order-IsResting s i b r = elim (Option-cases (lookup i b.orders_by_id)) [
    | inl e ↦ rw (e, remove_order) r
    | inr (o, e) ↦ record {
      valid = remove_order-IsValid f i b r.valid;
      rests = rw (e, remove_order) (removed_from-AllRest s o.side i b e refl r);
    }
  ]

  pub size-remove_order :
      (s : OrderSide) (i : String) (b : OrderBook P)
      → size (side_levels s (remove_order f i b).1) ≤ size (side_levels s b)
  unfolding remove_order
  size-remove_order s i b = elim (Option-cases (lookup i b.orders_by_id)) [
    | inl e ↦ rw (e, remove_order) (omega arith)
    | inr (o, e) ↦ rw (e, remove_order) (size-removed_from s o.side _ i b)
  ]

  removed_first_size :
      (s : OrderSide) (k : ℤ) {m : Order P} {ms : List (Order P)} (b : OrderBook P)
      → orders_at k (side_levels s b) ≡ m ∷ ms
      → size (side_levels s (removed_from s k m.order_id b)) < size (side_levels s b)
  removed_first_size buy k b e = size-remove_first k b.buy_orders e
  removed_first_size sell k b e = size-remove_first k b.sell_orders e

  removed_where :
      (s : OrderSide) (k : ℤ) (i : String) (n : ℕ) (o : Order P) (b : OrderBook P)
      → o.side ≡ s
      → key_of f o ≡ k
      → size (side_levels s (removed_from s k i b)) < n
      → size (side_levels s (removed_from o.side (key_of f o) i b)) < n
  removed_where s k i n o b side key h = rw (side, key) h

  -- The first order at a key is taken out of its side.
  pub first_taken :
      (s : OrderSide) (k : ℤ) {m : Order P} {ms : List (Order P)} (b : OrderBook P)
      → IsResting s b
      → orders_at k (side_levels s b) ≡ m ∷ ms
      → size (side_levels s (remove_order f m.order_id b).1) < size (side_levels s b)
  unfolding remove_order
  first_taken s k {m} {ms} b r e =
      let all : All (RestsAt f b.orders_by_id s k) (m ∷ ms) =
        rw e at (at-AllRest f b.orders_by_id s k (side_levels s b) r.rests) in
      let (o, found, side, key) = all.0.1 in
      rw (found, remove_order)
        (removed_where s k m.order_id _ o b side key (removed_first_size s k b e))
