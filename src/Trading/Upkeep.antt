-- ===== src/Trading/Upkeep.antt =====
-- trading/src/execution/order_book.rs: adding, removing and updating an order.
use actix_pura.Prelude.{
  ℕ, ◌≡◌, ◌≢◌, refl, ap, ◌∙◌, String, true, Option, none, some, List, [], ◌∷◌, ◌++◌, arith, All,
  ◌⊎◌, inl, inr, Bool-cases, Option-cases, if_both,
}
use actix_pura.Prelude.Dict.{lookup, insert, lookup-insert, remove-insert}
use actix_pura.Prelude.Int.{ℤ, ltb_ℤ, eq_ℤ, eq_ℤ_refl}
use actix_pura.Trading.Order.{Order, OrderSide, OrderStatus, buy, sell, PriceOps, is_active}
use actix_pura.Trading.Levels.{Levels, push_at, orders_at, without_id, keep_level, remove_at}
use actix_pura.Trading.Book.{
  OrderBook, good_price, place, side_levels, set_side, add_order, remove_order, updated,
  update_order,
}
use actix_pura.Trading.Ascending.{
  StandsAt, IsBook, Above-IsBook, IsValid, push-IsBook, remove-IsBook,
}

module _ {P : Type 0} (f : PriceOps P) where
  pub good_price_eq : (q : Option P) (p : P) → good_price f q ≡ some p → q ≡ some p
  good_price_eq none p h = cc
  good_price_eq (some r) p h = ground arith

  push_side-IsValid :
      (s : OrderSide) (k : ℤ) (o : Order P) (b : OrderBook P)
      → StandsAt f k o
      → IsValid f b
      → IsValid f (set_side s (push_at k o (side_levels s b)) b)
  push_side-IsValid buy k o b h v = record {
    buys = push-IsBook f k o b.buy_orders h v.buys;
    sells = v.sells;
  }
  push_side-IsValid sell k o b h v = record {
    buys = v.buys;
    sells = push-IsBook f k o b.sell_orders h v.sells;
  }

  place-IsValid :
      (q : Option P) (o : Order P) (b : OrderBook P)
      → good_price f o.price ≡ q
      → IsValid f b
      → IsValid f (place f q o b)
  place-IsValid none o b h v = v
  place-IsValid (some p) o b h v =
      push_side-IsValid o.side (f.to_key p) o b (p, good_price_eq o.price p h, refl) v

  reindex :
      (d : List (String × Order P)) (b : OrderBook P)
      → IsValid f b
      → IsValid f (record b { orders_by_id = d })
  reindex d b v = record { buys = v.buys; sells = v.sells }

  pub add_order_ok :
      (o : Order P) (b : OrderBook P)
      → o.symbol ≡ b.symbol
      → is_active o ≡ true
      → let b' = place f (good_price f o.price) o b in
        add_order f o b ≡ (true, record b' { orders_by_id = insert o.order_id o b'.orders_by_id })
  unfolding add_order
  add_order_ok o b same active = ground arith

  pub add_order_cases :
      (o : Order P) (b : OrderBook P)
      → ((add_order f o b).1 ≡ b) ⊎ ((o.symbol ≡ b.symbol) × (is_active o ≡ true))
  unfolding add_order
  add_order_cases o b = ground arith

  -- Adding an order, accepted or not, keeps both sides of the book well formed: their keys ascend
  -- strictly, no level is empty, and each order stands at the key of its own price.
  pub add_order-IsValid :
      (o : Order P) (b : OrderBook P) → IsValid f b → IsValid f (add_order f o b).1
  add_order-IsValid o b v = elim (add_order_cases o b) [
    | inl refused ↦ rw refused v
    | inr (same, active) ↦
        rw (add_order_ok o b same active)
          (reindex _ _ (place-IsValid (good_price f o.price) o b refl v))
  ]

  remove_side-IsValid :
      (s : OrderSide) (k : ℤ) (i : String) (b : OrderBook P)
      → IsValid f b
      → IsValid f (set_side s (remove_at k i (side_levels s b)) b)
  remove_side-IsValid buy k i b v = record {
    buys = remove-IsBook f k i b.buy_orders v.buys;
    sells = v.sells;
  }
  remove_side-IsValid sell k i b v = record {
    buys = v.buys;
    sells = remove-IsBook f k i b.sell_orders v.sells;
  }

  -- Removing an order, found or not, keeps both sides of the book well formed.
  pub remove_order-IsValid :
      (i : String) (b : OrderBook P) → IsValid f b → IsValid f (remove_order f i b).1
  unfolding remove_order
  remove_order-IsValid i b v = elim (Option-cases (lookup i b.orders_by_id)) [
    | inl e ↦ rw (e, remove_order) v
    | inr (o, e) ↦ rw (e, remove_order) (remove_side-IsValid o.side _ i _ (reindex _ b v))
  ]

  -- An update of an order, which removes it when it is no longer active, keeps both sides of the
  -- book well formed.
  pub update_order-IsValid :
      (i : String) (s : OrderStatus) (q : Option ℤ) (now : ℕ) (b : OrderBook P)
      → IsValid f b
      → IsValid f (update_order f i s q now b).1
  unfolding update_order
  update_order-IsValid i s q now b v = elim (Option-cases (lookup i b.orders_by_id)) [
    | inl e ↦ rw (e, update_order) v
    | inr (o, e) ↦
        rw (e, update_order)
          (if_both (IsValid f) _ (reindex _ b v) (remove_order-IsValid i _ (reindex _ b v)))
  ]

  -- An update of an order that the index has, to a status in which it stays active, changes the
  -- index alone: both sides of the book keep the order as it was.
  pub update_order_stale :
      (i : String) (s : OrderStatus) (q : Option ℤ) (now : ℕ) {o : Order P} (b : OrderBook P)
      → lookup i b.orders_by_id ≡ some o
      → is_active (updated f s q now o) ≡ true
      → let k = (update_order f i s q now b).1 in
        (lookup i k.orders_by_id ≡ some (updated f s q now o))
        × (k.buy_orders ≡ b.buy_orders)
        × (k.sell_orders ≡ b.sell_orders)
  unfolding update_order
  update_order_stale i s q now {o} b e a =
      ground (arith, lookup-insert i i (updated f s q now o) b.orders_by_id)

  without_missing :
      (i : String) (os : List (Order P)) → All (λ m. m.order_id ≢ i) os → without_id i os ≡ os
  unfolding without_id
  without_missing i [] h = refl
  without_missing i (m ∷ os) h = ground (arith, without_missing i os h.1)

  without_snoc :
      (o : Order P) (os : List (Order P))
      → All (λ m. m.order_id ≢ o.order_id) os
      → without_id o.order_id (os ++ o ∷ []) ≡ os
  unfolding without_id
  without_snoc o [] h = ground arith
  without_snoc o (m ∷ os) h = ground (arith, without_snoc o os h.1)

  keep_of_ne :
      (k : ℤ) (os : List (Order P)) (l : Levels P) → os ≢ [] → keep_level k os l ≡ (k, os) ∷ l
  keep_of_ne k [] l h = absurd (h refl)
  keep_of_ne k (o ∷ os) l h = refl

  remove-push :
      (k : ℤ) (o : Order P) (l : Levels P)
      → IsBook f l
      → All (λ m. m.order_id ≢ o.order_id) (orders_at k l)
      → remove_at k o.order_id (push_at k o l) ≡ l
  unfolding remove_at push_at orders_at
  remove-push k o [] v h = rw (eq_ℤ_refl k) (ap (λ os. keep_level k os []) (without_snoc o [] tt))
  remove-push k o ((j, os) ∷ l) v h = elim (Bool-cases (eq_ℤ k j)) [
    | inl e ↦
        let h' : All (λ m. m.order_id ≢ o.order_id) os = rw e at h in
        rw e (rw e (ap (λ x. keep_level j x l) (without_snoc o os h') ∙ keep_of_ne j os l v.0))
    | inr ne ↦ elim (Bool-cases (ltb_ℤ k j)) [
      | inl below ↦
          rw (ne, below)
            (rw (eq_ℤ_refl k) (ap (λ x. keep_level k x ((j, os) ∷ l)) (without_snoc o [] tt)))
      | inr above ↦
          let h' : All (λ m. m.order_id ≢ o.order_id) (orders_at k l) = rw ne at h in
          rw (ne, above) (rw ne (ap (◌∷◌ (j, os)) (remove-push k o l (Above-IsBook f j l v.2) h')))
    ]
  ]

  pub place_index :
      (q : Option P) (o : Order P) (b : OrderBook P) → (place f q o b).orders_by_id ≡ b.orders_by_id
  place_index none o b = refl
  place_index (some p) o b = ground arith

  round_trip :
      (s : OrderSide) (o : Order P) (b : OrderBook P) {p : P}
      → o.side ≡ s
      → IsValid f b
      → o.symbol ≡ b.symbol
      → is_active o ≡ true
      → good_price f o.price ≡ some p
      → lookup o.order_id b.orders_by_id ≡ none
      → All (λ m. m.order_id ≢ o.order_id) (orders_at (f.to_key p) (side_levels s b))
      → remove_order f o.order_id (add_order f o b).1 ≡ (some o, b)
  unfolding add_order remove_order
  round_trip buy o b {p} side v same active price fresh absent = ground (
    arith,
    remove-push (f.to_key p) o b.buy_orders v.buys absent,
    remove-insert o.order_id o b.orders_by_id fresh,
    lookup-insert o.order_id o.order_id o b.orders_by_id,
    good_price_eq o.price p price,
  )
  round_trip sell o b {p} side v same active price fresh absent = ground (
    arith,
    remove-push (f.to_key p) o b.sell_orders v.sells absent,
    remove-insert o.order_id o b.orders_by_id fresh,
    lookup-insert o.order_id o.order_id o b.orders_by_id,
    good_price_eq o.price p price,
  )

  -- Removing from a well-formed book what was just added, an active order of the book's symbol with
  -- a positive price, under an identifier that neither the index nor the level of its price has,
  -- gives the order and the book as it was.
  pub remove_order-add_order :
      (o : Order P) (b : OrderBook P) {p : P}
      → IsValid f b
      → o.symbol ≡ b.symbol
      → is_active o ≡ true
      → good_price f o.price ≡ some p
      → lookup o.order_id b.orders_by_id ≡ none
      → All (λ m. m.order_id ≢ o.order_id) (orders_at (f.to_key p) (side_levels o.side b))
      → remove_order f o.order_id (add_order f o b).1 ≡ (some o, b)
  remove_order-add_order o b {p} v same active price fresh absent =
      round_trip o.side o b refl v same active price fresh absent
