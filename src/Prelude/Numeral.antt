-- ===== src/Prelude/Numeral.antt =====
-- The decimal numeral of a number, as `format!` writes it, and that different numbers differ in it.
use Prim.Native.Nat.{ℕ, zero, suc, ◌+◌, ◌-◌, ◌*◌, ◌/◌, ◌%◌, ◌<◌}
use Prim.Native.Char.{Char, code}
use Prim.Native.String.{String}
use mathlib.Core.Path.{◌≡◌, refl, sym, ap, ◌∙◌}
use mathlib.Core.Logic.{inl, inr}
use native.Mathlib.Omega.{arith}
use actix_pura.Prelude.Tests.{if◌then◌else◌, ltb, Bool-cases}

digit : ℕ → Char
digit zero = "0"
digit (suc zero) = "1"
digit (suc (suc zero)) = "2"
digit (suc (suc (suc zero))) = "3"
digit (suc (suc (suc (suc zero)))) = "4"
digit (suc (suc (suc (suc (suc zero))))) = "5"
digit (suc (suc (suc (suc (suc (suc zero)))))) = "6"
digit (suc (suc (suc (suc (suc (suc (suc zero))))))) = "7"
digit (suc (suc (suc (suc (suc (suc (suc (suc zero)))))))) = "8"
digit _ = "9"

-- The digits of a number before some text, with fuel for each.
digits : ℕ → ℕ → String → String
digits zero n s = s
digits (suc f) n s =
    let more = digits f (n / 10) (String.◌∷◌ (digit (n % 10)) s) in
    if ltb n 10 then String.◌∷◌ (digit n) s else more

unfoldable pub numeral : ℕ → String
unfolding digits digit
numeral n = digits (suc n) n String.[]

-- The number that a text adds to, read from the left.
value_of : ℕ → String → ℕ
value_of a String.[] = a
value_of a (String.◌∷◌ c s) = value_of (a * 10 + (code c - 48)) s

code-digit : (d : ℕ) → d < 10 → code (digit d) - 48 ≡ d
unfolding digit
code-digit zero h = refl
code-digit (suc zero) h = refl
code-digit (suc (suc zero)) h = refl
code-digit (suc (suc (suc zero))) h = refl
code-digit (suc (suc (suc (suc zero)))) h = refl
code-digit (suc (suc (suc (suc (suc zero))))) h = refl
code-digit (suc (suc (suc (suc (suc (suc zero)))))) h = refl
code-digit (suc (suc (suc (suc (suc (suc (suc zero))))))) h = refl
code-digit (suc (suc (suc (suc (suc (suc (suc (suc zero)))))))) h = refl
code-digit (suc (suc (suc (suc (suc (suc (suc (suc (suc zero))))))))) h = refl
code-digit (suc (suc (suc (suc (suc (suc (suc (suc (suc (suc d)))))))))) h = absurd (omega arith)

value_of-digits : (f n : ℕ) (s : String) → n < f → value_of 0 (digits f n s) ≡ value_of n s
unfolding value_of digits
value_of-digits zero n s h = elim h [ ]
value_of-digits (suc f) n s h = elim (Bool-cases (ltb n 10)) [
  | inl small ↦ rw small (ap (λ (a : ℕ). value_of a s) (omega (arith, code-digit n (ground arith))))
  | inr large ↦ rw large (
      value_of-digits f (n / 10) (String.◌∷◌ (digit (n % 10)) s) (ground arith)
      ∙ ap (λ (a : ℕ). value_of a s) (omega (arith, code-digit (n % 10) (omega arith))))
]

pub numeral_inj : (n m : ℕ) → numeral n ≡ numeral m → n ≡ m
unfolding numeral
numeral_inj n m e =
    let left : value_of 0 (digits (suc n) n String.[]) ≡ n =
      value_of-digits (suc n) n String.[] (omega arith) ∙ unfold value_of in refl in
    let right : value_of 0 (digits (suc m) m String.[]) ≡ m =
      value_of-digits (suc m) m String.[] (omega arith) ∙ unfold value_of in refl in
    sym left ∙ ap (value_of 0) e ∙ right
