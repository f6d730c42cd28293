-- ===== src/Prelude/Tabulate.antt =====
-- The list of the values of a function at 0, 1, ..., n - 1.
use Prim.Native.Nat.{ℕ, zero, suc, ◌<◌}
use mathlib.Core.Path.{◌≡◌, refl, ap, ap₂}
use mathlib.Core.List.{List, [], ◌∷◌, ◌++◌}
use mathlib.Core.Option.{none, some}
use native.Mathlib.Omega.{arith}
use my_simple_c_http_server.Prelude.Lists.{length, get_elem?}
use my_simple_c_http_server.Prelude.Tests.{ltb, if◌then◌else◌}

module _ {ℓ} {A : Type ℓ} where
  abbrev pub tabulate : ℕ → (ℕ → A) → List A
  tabulate zero f = []
  tabulate (suc n) f = f 0 ∷ tabulate n (λ i. f (suc i))

  pub length-tabulate : (n : ℕ) (f : ℕ → A) → length (tabulate n f) ≡ n
  length-tabulate zero f = refl
  length-tabulate (suc n) f = ap suc (length-tabulate n (λ i. f (suc i)))

  pub tabulate_ext :
      (n : ℕ) (f g : ℕ → A) → ((i : ℕ) → i < n → f i ≡ g i) → tabulate n f ≡ tabulate n g
  tabulate_ext zero f g h = refl
  tabulate_ext (suc n) f g h =
      ap₂ ◌∷◌ (h 0 (omega arith))
        (tabulate_ext n (λ i. f (suc i)) (λ i. g (suc i)) (λ i hi. h (suc i) (omega arith)))

  pub tabulate-suc : (n : ℕ) (f : ℕ → A) → tabulate (suc n) f ≡ tabulate n f ++ f n ∷ []
  tabulate-suc zero f = refl
  tabulate-suc (suc n) f = ap (λ l. f 0 ∷ l) (tabulate-suc n (λ i. f (suc i)))

  pub get_elem?-tabulate :
      (n : ℕ) (f : ℕ → A) (i : ℕ)
      → get_elem? (tabulate n f) i ≡ (if ltb i n then some (f i) else none)
  get_elem?-tabulate zero f i = ground arith
  get_elem?-tabulate (suc n) f zero = ground arith
  get_elem?-tabulate (suc n) f (suc i) = ground (arith, get_elem?-tabulate n (λ j. f (suc j)) i)
