-- ===== src/Prelude/Outcomes.antt =====
-- What a call of a C function comes to.
use mathlib.Core.Path.{◌≡◌, refl}
use mathlib.Core.Bool.{Bool, true, false}
use my_simple_c_http_server.Prelude.Tests.{if◌then◌else◌}

-- Two of these are no values of C. `fault`: undefined behaviour (a read or write out of bounds, a
-- shift that leaves `int`). `stuck`: the fuel of the model ran out.
pub data Outcome {ℓ κ} (E : Type κ) (A : Type ℓ) : Type (ℓ ⊔ κ) where
  ok : A → Outcome E A
  error : E → Outcome E A
  fault : Outcome E A
  stuck : Outcome E A

infixl 5 ◌>>=◌
abbrev pub ◌>>=◌ {ℓ κ ν} :
    {E : Type ν} {A : Type ℓ} {B : Type κ} → Outcome E A → (A → Outcome E B) → Outcome E B
ok a >>= f = f a
error e >>= f = error e
fault >>= f = fault
stuck >>= f = stuck

-- The outcome with another error in place of each error.
abbrev pub with_error {ℓ κ ν} :
    {E : Type ν} {D : Type κ} {A : Type ℓ} → (E → D) → Outcome E A → Outcome D A
with_error f (ok a) = ok a
with_error f (error e) = error (f e)
with_error f fault = fault
with_error f stuck = stuck

abbrev pub map_ok {ℓ κ ν} :
    {E : Type ν} {A : Type ℓ} {B : Type κ} → (A → B) → Outcome E A → Outcome E B
map_ok f (ok a) = ok (f a)
map_ok f (error e) = error e
map_ok f fault = fault
map_ok f stuck = stuck

-- Inversion of a successful bind, and of a successful outcome with another error.
pub bind-eq-ok {ℓ κ ν} :
    {E : Type ν} {A : Type ℓ} {B : Type κ} (m : Outcome E A) (f : A → Outcome E B) {b : B}
    → (m >>= f) ≡ ok b
    → (a : A) × (m ≡ ok a) × (f a ≡ ok b)
bind-eq-ok (ok a) f h = (a, refl, h)
bind-eq-ok (error e) f h = cc
bind-eq-ok fault f h = cc
bind-eq-ok stuck f h = cc

pub with_error-eq-ok {ℓ κ ν} :
    {E : Type ν} {D : Type κ} {A : Type ℓ} (f : E → D) (m : Outcome E A) {a : A}
    → with_error f m ≡ ok a
    → m ≡ ok a
with_error-eq-ok f (ok a) h = cc
with_error-eq-ok f (error e) h = cc
with_error-eq-ok f fault h = cc
with_error-eq-ok f stuck h = cc

-- `P` holds of the result and `Q` of the error, and the fuel does not run out. Of a fault nothing is
-- said.
abbrev pub Ensures : {E A : Type 0} → (E → Type 0) → (A → Type 0) → Outcome E A → Type 0
Ensures Q P (ok a) = P a
Ensures Q P (error e) = Q e
Ensures Q P fault = Unit
Ensures Q P stuck = ⊥

module _ {E : Type 0} where
  pub Ensures-bind :
      {A B : Type 0} (Q : E → Type 0) (P : A → Type 0) (R : B → Type 0) (m : Outcome E A)
      (f : A → Outcome E B)
      → Ensures Q P m
      → ((a : A) → P a → Ensures Q R (f a))
      → Ensures Q R (m >>= f)
  Ensures-bind Q P R (ok a) f h k = k a h
  Ensures-bind Q P R (error e) f h k = h
  Ensures-bind Q P R fault f h k = tt
  Ensures-bind Q P R stuck f h k = h

  pub Ensures-map_ok :
      {A B : Type 0} (Q : E → Type 0) (P : A → Type 0) (R : B → Type 0) (m : Outcome E A)
      (f : A → B)
      → Ensures Q P m
      → ((a : A) → P a → R (f a))
      → Ensures Q R (map_ok f m)
  Ensures-map_ok Q P R (ok a) f h k = k a h
  Ensures-map_ok Q P R (error e) f h k = h
  Ensures-map_ok Q P R fault f h k = tt
  Ensures-map_ok Q P R stuck f h k = h

  pub Ensures-with_error :
      {D A : Type 0} (Q : E → Type 0) (S : D → Type 0) (P : A → Type 0) (m : Outcome E A)
      (f : E → D)
      → Ensures Q P m
      → ((e : E) → Q e → S (f e))
      → Ensures S P (with_error f m)
  Ensures-with_error Q S P (ok a) f h k = h
  Ensures-with_error Q S P (error e) f h k = k e h
  Ensures-with_error Q S P fault f h k = tt
  Ensures-with_error Q S P stuck f h k = h

  pub Ensures-of :
      {A : Type 0} (P : A → Type 0) (m : Outcome E A)
      → (m ≡ stuck → ⊥)
      → ((a : A) → m ≡ ok a → P a)
      → Ensures (λ _. Unit) P m
  Ensures-of P (ok a) h k = k a refl
  Ensures-of P (error e) h k = tt
  Ensures-of P fault h k = tt
  Ensures-of P stuck h k = h refl

  pub Ensures_ok :
      {A : Type 0} (Q : E → Type 0) (P : A → Type 0) (m : Outcome E A) (a : A)
      → Ensures Q P m
      → m ≡ ok a
      → P a
  Ensures_ok Q P m a h e = rw e at h

  pub Ensures-mono :
      {A : Type 0} (Q S : E → Type 0) (P R : A → Type 0) (m : Outcome E A)
      → Ensures Q P m
      → ((e : E) → Q e → S e)
      → ((a : A) → P a → R a)
      → Ensures S R m
  Ensures-mono Q S P R (ok a) h q p = p a h
  Ensures-mono Q S P R (error e) h q p = q e h
  Ensures-mono Q S P R fault h q p = tt
  Ensures-mono Q S P R stuck h q p = h

  pub Ensures-if :
      {A : Type 0} (Q : E → Type 0) (P : A → Type 0) (b : Bool) (m n : Outcome E A)
      → (b ≡ true → Ensures Q P m)
      → (b ≡ false → Ensures Q P n)
      → Ensures Q P (if b then m else n)
  Ensures-if Q P true m n h k = h refl
  Ensures-if Q P false m n h k = k refl

-- The same, where the outcome is no fault either.
abbrev pub Ends : {E A : Type 0} → (E → Type 0) → (A → Type 0) → Outcome E A → Type 0
Ends Q P (ok a) = P a
Ends Q P (error e) = Q e
Ends Q P fault = ⊥
Ends Q P stuck = ⊥

module _ {E : Type 0} where
  pub Ends-bind :
      {A B : Type 0} (Q : E → Type 0) (P : A → Type 0) (R : B → Type 0) (m : Outcome E A)
      (f : A → Outcome E B)
      → Ends Q P m
      → ((a : A) → P a → Ends Q R (f a))
      → Ends Q R (m >>= f)
  Ends-bind Q P R (ok a) f h k = k a h
  Ends-bind Q P R (error e) f h k = h
  Ends-bind Q P R fault f h k = elim h [ ]
  Ends-bind Q P R stuck f h k = elim h [ ]

  pub Ends-if :
      {A : Type 0} (Q : E → Type 0) (P : A → Type 0) (b : Bool) (m n : Outcome E A)
      → (b ≡ true → Ends Q P m)
      → (b ≡ false → Ends Q P n)
      → Ends Q P (if b then m else n)
  Ends-if Q P true m n h k = h refl
  Ends-if Q P false m n h k = k refl

  pub Ends-mono :
      {A : Type 0} (Q S : E → Type 0) (P R : A → Type 0) (m : Outcome E A)
      → Ends Q P m
      → ((e : E) → Q e → S e)
      → ((a : A) → P a → R a)
      → Ends S R m
  Ends-mono Q S P R (ok a) h q p = p a h
  Ends-mono Q S P R (error e) h q p = q e h
  Ends-mono Q S P R fault h q p = elim h [ ]
  Ends-mono Q S P R stuck h q p = elim h [ ]

  pub Ends_ok :
      {A : Type 0} (Q : E → Type 0) (P : A → Type 0) (m : Outcome E A) (a : A)
      → Ends Q P m
      → m ≡ ok a
      → P a
  Ends_ok Q P m a h e = rw e at h

  pub Ends-Ensures :
      {A : Type 0} (Q : E → Type 0) (P : A → Type 0) (m : Outcome E A) → Ends Q P m → Ensures Q P m
  Ends-Ensures Q P (ok a) h = h
  Ends-Ensures Q P (error e) h = h
  Ends-Ensures Q P fault h = tt
  Ends-Ensures Q P stuck h = h

  pub Ends-map_ok :
      {A B : Type 0} (Q : E → Type 0) (P : A → Type 0) (R : B → Type 0) (m : Outcome E A)
      (f : A → B)
      → Ends Q P m
      → ((a : A) → P a → R (f a))
      → Ends Q R (map_ok f m)
  Ends-map_ok Q P R (ok a) f h k = k a h
  Ends-map_ok Q P R (error e) f h k = h
  Ends-map_ok Q P R fault f h k = elim h [ ]
  Ends-map_ok Q P R stuck f h k = elim h [ ]
