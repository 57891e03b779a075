-- ===== src/Cluster/Trimming.antt =====
-- actix-cluster/src/registry.rs: what trimming the cache keeps.
use actix_pura.Prelude.{
  ℕ, zero, suc, ◌≤◌, ◌<◌, ◌≡◌, inl, inr, refl, sym, ap, String, [], ◌∷◌, ◌++◌, if_both, leb, length,
  take, drop, All, arith, Bool-cases,
}
use actix_pura.Cluster.Registry.{
  ActorRef, Cache, ActorRegistry, insert_entry, sort_entries, set_max_cache_size,
}
use mathlib.Core.Path.{subst}
use mathlib.Core.List.{Perm}
use mathlib.Core.List.Perm

-- The times of a list of entries ascend.
AllAfter : ℕ → Cache → Type 0
AllAfter t c = All (λ e. t ≤ e.1.1) c

Ascends : Cache → Type 0
Ascends [] = Unit
Ascends (e ∷ c) = AllAfter e.1.1 c × Ascends c

after_insert :
    (t : ℕ) (e : String × (ActorRef × ℕ)) (c : Cache)
    → t ≤ e.1.1
    → AllAfter t c
    → AllAfter t (insert_entry e c)
unfolding AllAfter insert_entry
after_insert t e [] h a = (h, tt)
after_insert t e (d ∷ c) h a =
    if_both (All (λ (x : String × (ActorRef × ℕ)). t ≤ x.1.1)) (leb e.1.1 d.1.1) (h, a)
      (a.0, after_insert t e c h a.1)

after_mono : (s t : ℕ) (c : Cache) → s ≤ t → AllAfter t c → AllAfter s c
unfolding AllAfter
after_mono s t [] h a = tt
after_mono s t (e ∷ c) h a = (omega (arith, a.0), after_mono s t c h a.1)

insert-Ascends : (e : String × (ActorRef × ℕ)) (c : Cache) → Ascends c → Ascends (insert_entry e c)
unfolding Ascends insert_entry
insert-Ascends e [] a = (unfold AllAfter in tt, tt)
insert-Ascends e (d ∷ c) a = elim (Bool-cases (leb e.1.1 d.1.1)) [
  | inl before ↦
      rw before
        ((unfold AllAfter in (ground arith, after_mono e.1.1 d.1.1 c (ground arith) a.0)), a)
  | inr past ↦ rw past (after_insert d.1.1 e c (ground arith) a.0, insert-Ascends e c a.1)
]

sort-Ascends : (c : Cache) → Ascends (sort_entries c)
unfolding sort_entries
sort-Ascends [] = unfold Ascends in tt
sort-Ascends (e ∷ c) = insert-Ascends e (sort_entries c) (sort-Ascends c)

drop-AllAfter : (t n : ℕ) (c : Cache) → AllAfter t c → AllAfter t (drop n c)
unfolding AllAfter
drop-AllAfter t zero c a = a
drop-AllAfter t (suc n) [] a = tt
drop-AllAfter t (suc n) (e ∷ c) a = drop-AllAfter t n c a.1

take_before_drop :
    (n : ℕ) (c : Cache) → Ascends c → All (λ e. All (λ d. e.1.1 ≤ d.1.1) (drop n c)) (take n c)
unfolding Ascends
take_before_drop zero c a = tt
take_before_drop (suc n) [] a = tt
take_before_drop (suc n) (e ∷ c) a =
    ((unfold AllAfter in drop-AllAfter e.1.1 n c a.0), take_before_drop n c a.1)

insert-Perm : (e : String × (ActorRef × ℕ)) (c : Cache) → Perm (e ∷ c) (insert_entry e c)
unfolding insert_entry
insert-Perm e [] = Perm.refl (e ∷ [])
insert-Perm e (d ∷ c) =
    if_both (Perm (e ∷ d ∷ c)) (leb e.1.1 d.1.1) (Perm.refl (e ∷ d ∷ c))
      (Perm.trans (Perm.swap d e c) (Perm.cons d (insert-Perm e c)))

sort-Perm : (c : Cache) → Perm c (sort_entries c)
unfolding sort_entries
sort-Perm [] = Perm.refl []
sort-Perm (e ∷ c) = Perm.trans (Perm.cons e (sort-Perm c)) (insert-Perm e (sort_entries c))

take-append-drop : (n : ℕ) (c : Cache) → take n c ++ drop n c ≡ c
take-append-drop zero c = refl
take-append-drop (suc n) [] = refl
take-append-drop (suc n) (e ∷ c) = ap (λ (x : Cache). e ∷ x) (take-append-drop n c)

trimmed :
    (n : ℕ) (r : ActorRegistry)
    → 0 < n
    → n < length r.lookup_cache
    → (set_max_cache_size n r).lookup_cache ≡ take n (sort_entries r.lookup_cache)
unfolding set_max_cache_size
trimmed n r h lt = ground arith

-- Trimming a cache that is too large keeps the oldest entries: those that it keeps and those that
-- it drops are its entries in some order, and each one kept is at most as young as each one
-- dropped.
pub set_max_cache_size_keeps_oldest :
    (n : ℕ) (r : ActorRegistry)
    → 0 < n
    → n < length r.lookup_cache
    → (dropped : Cache) × Perm r.lookup_cache ((set_max_cache_size n r).lookup_cache ++ dropped)
      × All (λ e. All (λ d. e.1.1 ≤ d.1.1) dropped) (set_max_cache_size n r).lookup_cache
set_max_cache_size_keeps_oldest n r h lt =
    let c = sort_entries r.lookup_cache in
    let kept = trimmed n r h lt in
    let parted =
      subst (Perm r.lookup_cache) (sym (take-append-drop n c)) (sort-Perm r.lookup_cache) in
    (
      drop n c,
      subst (λ x. Perm r.lookup_cache (x ++ drop n c)) (sym kept) parted,
      subst (All (λ e. All (λ d. e.1.1 ≤ d.1.1) (drop n c))) (sym kept)
          (take_before_drop n c (sort-Ascends r.lookup_cache)),
    )
