-- ===== src/Prelude/Text.antt =====
-- Strings, which the program uses as identifiers: compared for equality, and nothing else.
use mathlib.Core.Path.{◌≡◌, refl}
use mathlib.Core.Bool.{Bool, true, false}
use Prim.Native.String.{String}
use text.Mathlib.Text.{◌==◌ as text_eq}
use text.Mathlib.TextEquality.{eq_iff}
use native.Mathlib.Omega.{arith}

decide_text : (a b : String) (t : Bool) → text_eq a b ≡ t → Dec (a ≡ b)
decide_text a b true e = yes ((eq_iff a b).0 e)
decide_text a b false e = no (λ h. ground (arith, (eq_iff a b).1 h))

unfoldable pub String-discrete : Discrete String
unfolding decide_text
String-discrete a b = decide_text a b (text_eq a b) refl

-- `==` on `String` and `&str`.
unfoldable pub str_eq : String → String → Bool
unfolding String-discrete
str_eq a b = elim (String-discrete a b) [ yes _ ↦ true | no _ ↦ false ]

no_of_test : {A : Type 0} (d : Dec A) → (elim d [ yes _ ↦ true | no _ ↦ false ]) ≡ false → ¬ A
no_of_test (yes a) h = cc
no_of_test (no n) h = n

pub str_eq→ne : (a b : String) → str_eq a b ≡ false → ¬ (a ≡ b)
unfolding str_eq
str_eq→ne a b h = no_of_test (String-discrete a b) h

yes_of_test : {A : Type 0} (d : Dec A) → (elim d [ yes _ ↦ true | no _ ↦ false ]) ≡ true → A
yes_of_test (yes a) h = a
yes_of_test (no n) h = cc

pub str_eq→eq : (a b : String) → str_eq a b ≡ true → a ≡ b
unfolding str_eq
str_eq→eq a b h = yes_of_test (String-discrete a b) h

test_of_yes : {A : Type 0} (d : Dec A) → A → (elim d [ yes _ ↦ true | no _ ↦ false ]) ≡ true
test_of_yes (yes a) h = refl
test_of_yes (no n) h = absurd (n h)

pub str_eq_refl : (a : String) → str_eq a a ≡ true
unfolding str_eq
str_eq_refl a = test_of_yes (String-discrete a a) refl
