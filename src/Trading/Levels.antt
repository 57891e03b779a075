-- ===== src/Trading/Levels.antt =====
-- trading/src/execution/order_book.rs: one side of the book, `BTreeMap<i64, Vec<Order>>`, as the
-- list of its entries in ascending order of the keys.
use actix_pura.Prelude.{
  String, Option, none, some, List, [], ◌∷◌, ◌++◌, if◌then◌else◌, String-discrete, ite,
}
use actix_pura.Prelude.Int.{ℤ, pos, ◌+ℤ◌, ltb_ℤ, leb_ℤ, eq_ℤ}
use actix_pura.Trading.Order.{Order, remaining_quantity}

abbrev pub Levels : Type 0 → Type 0
Levels P = List (ℤ × List (Order P))

module _ {P : Type 0} where
  -- `entry(key).or_insert_with(Vec::new).push(order)`
  unfoldable pub push_at : ℤ → Order P → Levels P → Levels P
  push_at k o [] = (k, o ∷ []) ∷ []
  push_at k o ((j, os) ∷ l) =
      if eq_ℤ k j
      then (j, os ++ o ∷ []) ∷ l
      else if ltb_ℤ k j
      then (k, o ∷ []) ∷ (j, os) ∷ l
      else (j, os) ∷ push_at k o l

  -- `get(&key).cloned().unwrap_or_default()`
  unfoldable pub orders_at : ℤ → Levels P → List (Order P)
  orders_at k [] = []
  orders_at k ((j, os) ∷ l) = if eq_ℤ k j then os else orders_at k l

  -- `retain(|o| o.order_id != order_id)`
  unfoldable pub without_id : String → List (Order P) → List (Order P)
  without_id i [] = []
  without_id i (o ∷ os) = ite (String-discrete o.order_id i) (without_id i os) (o ∷ without_id i os)

  -- A level that is left empty is removed.
  abbrev pub keep_level : ℤ → List (Order P) → Levels P → Levels P
  keep_level k [] l = l
  keep_level k (o ∷ os) l = (k, o ∷ os) ∷ l

  -- `if let Some(orders) = get_mut(&key) { ... }` of `remove_order`.
  unfoldable pub remove_at : ℤ → String → Levels P → Levels P
  remove_at k i [] = []
  remove_at k i ((j, os) ∷ l) =
      if eq_ℤ k j then keep_level j (without_id i os) l else (j, os) ∷ remove_at k i l

  -- `iter().next()` and `iter().next_back()`, by their keys.
  unfoldable pub first_key : Levels P → Option ℤ
  first_key [] = none
  first_key ((k, _) ∷ l) = some k

  unfoldable pub last_key : Levels P → Option ℤ
  last_key [] = none
  last_key ((k, _) ∷ []) = some k
  last_key (_ ∷ e ∷ l) = last_key (e ∷ l)

  -- `range(key..)` and `range(..=key)`, their orders one after the other.
  unfoldable pub orders_from : ℤ → Levels P → List (Order P)
  orders_from k [] = []
  orders_from k ((j, os) ∷ l) = if leb_ℤ k j then os ++ orders_from k l else orders_from k l

  unfoldable pub orders_upto : ℤ → Levels P → List (Order P)
  orders_upto k [] = []
  orders_upto k ((j, os) ∷ l) = if leb_ℤ j k then os ++ orders_upto k l else orders_upto k l

  -- `iter().map(|o| o.remaining_quantity()).sum()`
  unfoldable pub total_remaining : List (Order P) → ℤ
  total_remaining [] = pos 0
  total_remaining (o ∷ os) = remaining_quantity o +ℤ total_remaining os
