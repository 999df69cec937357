-- ===== src/Base/Results.antt =====
-- Fallible code: Rust's `Result`, with `?` as bind.
use mathlib.Core.Path.{◌≡◌, refl}
use mathlib.Core.Logic.{◌⊎◌, inl, inr}
use mathlib.Core.Bool.{Bool, true, false}
use native.Mathlib.Omega.{arith}
use mathlib.Core.List.{List, [], ◌∷◌}

pub data Result {ℓ κ} (E : Type κ) (A : Type ℓ) : Type (ℓ ⊔ κ) where
  ok : A → Result E A
  err : E → Result E A

module _ {κ} {E : Type κ} where
  pub Result-cases {ℓ} :
      {A : Type ℓ} (r : Result E A) → ((a : A) × (r ≡ ok a)) ⊎ ((e : E) × (r ≡ err e))
  Result-cases (ok a) = inl (a, refl)
  Result-cases (err e) = inr (e, refl)

  abbrev pub map_err {ℓ μ} : {F : Type μ} {A : Type ℓ} → (E → F) → Result E A → Result F A
  map_err f (err e) = err (f e)
  map_err f (ok a) = ok a

  -- `if !b { return Err(e) }`
  abbrev pub guard : Bool → E → Result E (Unit {0})
  guard false e = err e
  guard true e = ok tt

  infixl 5 ◌>>=◌
  abbrev pub ◌>>=◌ {ℓ μ} : {A : Type ℓ} {B : Type μ} → Result E A → (A → Result E B) → Result E B
  err e >>= f = err e
  ok a >>= f = f a

  -- `into_iter().map(f).collect::<Result<Vec<_>, _>>()`
  unfoldable pub collect {ℓ μ} :
      {A : Type ℓ} {B : Type μ} → (A → Result E B) → List A → Result E (List B)
  collect f [] = ok []
  collect f (x ∷ xs) = do b ← f x; bs ← collect f xs; ok (b ∷ bs)

  infixl 5 ◌>>◌
  abbrev pub ◌>>◌ {μ} : {B : Type μ} → Result E (Unit {0}) → Result E B → Result E B
  m >> k = m >>= λ _. k

  -- A chain that succeeds has succeeded at each of its steps.
  pub bind-ok {ℓ μ} :
      {A : Type ℓ} {B : Type μ} (m : Result E A) (f : A → Result E B) {b : B}
      → (m >>= f) ≡ ok b
      → (a : A) × (m ≡ ok a) × (f a ≡ ok b)
  bind-ok (ok a) f h = (a, refl, h)
  bind-ok (err e) f h = ground arith

  pub guard-ok : (b : Bool) (e : E) {u : Unit {0}} → guard b e ≡ ok u → b ≡ true
  guard-ok true e h = refl
  guard-ok false e h = ground arith
