-- ===== src/Trading/Holdings.antt =====
-- trading/src/models/account.rs: the positions of an account.
use actix_pura.Prelude.{
  ℕ, ◌≡◌, ◌≢◌, refl, sym, ◌∙◌, String, true, false, none, some, arith, map_or, Bool-cases,
  Option-cases, inl, inr, String-discrete, if_pos, if_neg, if_both, if◌then◌else◌,
}
use actix_pura.Prelude.Dict.{lookup, insert, remove, lookup-insert, lookup-remove}
use actix_pura.Prelude.Int.{ℤ, pos, ◌+ℤ◌, ◌-ℤ◌, ◌≤ℤ◌, ◌<ℤ◌, ltb_ℤ, leb_ℤ, int_laws}
use actix_pura.Trading.Account.{
  Account, Position, available_quantity, update, freeze, unfreeze, update_position, new_position,
}

-- A position whose frozen part is within its quantity.
pub record IsHeld (p : Position) : Type 0 where
  pub free : p.frozen ≤ℤ p.quantity
  pub held : pos 0 ≤ℤ p.frozen

-- What is held under a symbol.
abbrev pub held_quantity : String → Account → ℤ
held_quantity symbol a = map_or (pos 0) (λ p. p.quantity) (lookup symbol a.positions)

-- A quantity that is not positive is no position.
abbrev pub clip : ℤ → ℤ
clip q = if leb_ℤ q (pos 0) then pos 0 else q

update_quantity :
    (divide : ℤ → ℤ → ℤ) (change price : ℤ) (p : Position)
    → (update divide change price p).quantity ≡ p.quantity +ℤ change
unfolding update
update_quantity divide change price p = ground arith

clip_zero : (q : ℤ) → leb_ℤ q (pos 0) ≡ true → clip q ≡ pos 0
clip_zero q h = ground arith

clip_stays : (q : ℤ) → leb_ℤ q (pos 0) ≡ false → clip q ≡ q
clip_stays q h = ground arith

clip_change : (q : ℤ) → clip (pos 0 +ℤ q) ≡ (if ltb_ℤ (pos 0) q then q else pos 0)
clip_change q = let same : pos 0 +ℤ q ≡ q = omega int_laws in rw same (ground arith)

lookup_same : (i : String) (p : Position) (a : Account) → lookup i (insert i p a.positions) ≡ some p
lookup_same i p a = lookup-insert i i p a.positions ∙ if_pos (String-discrete i i) refl (some p) _

lookup_gone :
    (i : String) (p : Position) (a : Account) → lookup i (remove i (insert i p a.positions)) ≡ none
lookup_gone i p a =
    lookup-remove i i (insert i p a.positions) ∙ if_pos (String-discrete i i) refl none _

lookup_other :
    (i j : String) (p : Position) (a : Account)
    → j ≢ i
    → lookup j (insert i p a.positions) ≡ lookup j a.positions
lookup_other i j p a h =
    lookup-insert i j p a.positions ∙ if_neg (String-discrete i j) (λ q. h (sym q)) (some p) _

-- An update moves what is held under its symbol by the change, down to nothing at most.
pub update_position_quantity :
    (divide : ℤ → ℤ → ℤ) (symbol : String) (change price : ℤ) (now : ℕ) (a : Account)
    → held_quantity symbol (update_position divide symbol change price now a)
      ≡ clip (held_quantity symbol a +ℤ change)
unfolding update_position new_position
update_position_quantity divide symbol change price now a =
    elim (Option-cases (lookup symbol a.positions)) [
      | inl e ↦
          rw (e, update_position)
            (elim (Bool-cases (ltb_ℤ (pos 0) change)) [
              | inl up ↦
                  let c : clip (pos 0 +ℤ change) ≡ change = rw up at (clip_change change) in
                  rw (up, lookup_same symbol (new_position symbol change price) a) (sym c)
              | inr down ↦
                  let c : clip (pos 0 +ℤ change) ≡ pos 0 = rw down at (clip_change change) in
                  rw (down, e) (sym c)
            ])
      | inr (p, e) ↦
          rw (e, update_position)
            (let p' = update divide change price p in
              let moved = update_quantity divide change price p in
              elim (Bool-cases (leb_ℤ p'.quantity (pos 0))) [
                | inl gone ↦
                    let c : leb_ℤ (p.quantity +ℤ change) (pos 0) ≡ true = rw moved at gone in
                    rw (gone, lookup_gone symbol p' a) (sym (clip_zero (p.quantity +ℤ change) c))
                | inr stays ↦
                    let c : leb_ℤ (p.quantity +ℤ change) (pos 0) ≡ false = rw moved at stays in
                    rw (stays, lookup_same symbol p' a)
                      (moved ∙ sym (clip_stays (p.quantity +ℤ change) c))
              ])
    ]

-- An update of one symbol leaves the positions of all others as they are.
pub update_position_others :
    (divide : ℤ → ℤ → ℤ) (symbol other : String) (change price : ℤ) (now : ℕ) (a : Account)
    → other ≢ symbol
    → lookup other (update_position divide symbol change price now a).positions
      ≡ lookup other a.positions
unfolding update_position
update_position_others divide symbol other change price now a h =
    elim (Option-cases (lookup symbol a.positions)) [
      | inl e ↦
          rw (e, update_position)
            (if_both (λ (x : Account). lookup other x.positions ≡ lookup other a.positions)
              (ltb_ℤ (pos 0) change)
              (lookup_other symbol other (new_position symbol change price) a h) refl)
      | inr (p, e) ↦
          rw (e, update_position)
            (let p' = update divide change price p in
              let kept = lookup_other symbol other p' a h in
              if_both (λ (x : Account). lookup other x.positions ≡ lookup other a.positions)
                (leb_ℤ p'.quantity (pos 0))
                (lookup-remove symbol other (insert symbol p' a.positions)
                  ∙ if_neg (String-discrete symbol other) (λ q. h (sym q)) none _
                  ∙ kept)
                kept)
    ]

-- Freezing a part of a position and unfreezing one, accepted or refused, keep the frozen part
-- within the quantity, when the amount is not negative.
pub freeze-IsHeld :
    (q : ℤ) (p : Position) → pos 0 ≤ℤ q → IsHeld p → IsHeld (freeze q p).1 × IsHeld (unfreeze q p).1
unfolding freeze unfreeze available_quantity
freeze-IsHeld q p h v = (
  elim (Bool-cases (ltb_ℤ (p.quantity -ℤ p.frozen) q)) [
    | inl short ↦ rw short v
    | inr fits ↦
        let room : q ≤ℤ p.quantity -ℤ p.frozen = ground arith in
        rw fits (record { free = omega int_laws; held = omega (int_laws, v.held) })
  ],
  elim (Bool-cases (ltb_ℤ p.frozen q)) [
    | inl short ↦ rw short v
    | inr fits ↦
        let room : q ≤ℤ p.frozen = ground arith in
        rw fits (record { free = omega (int_laws, v.free); held = omega int_laws })
  ],
)

-- A sale of more than is available of a position is accepted, and leaves less than is frozen.
pub update_below_frozen :
    (divide : ℤ → ℤ → ℤ) (change price : ℤ) (p : Position)
    → change ≤ℤ pos 0
    → available_quantity p +ℤ change <ℤ pos 0
    → (update divide change price p).quantity <ℤ (update divide change price p).frozen
unfolding update available_quantity
update_below_frozen divide change price p sale more =
    let less : ltb_ℤ (pos 0) change ≡ false = ground arith in rw less (omega int_laws)
