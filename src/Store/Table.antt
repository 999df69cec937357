-- ===== src/Store/Table.antt =====
-- Rows under a unique key: what a SELECT finds and what an UPDATE by the key does.
use mathlib.Core.Path.{fun_ext}
use ngy_coding_agent.Base.{
  Option-cases, ap, All-append, ℕ, Bool, true, false, ◌&&◌, none, some, List, [], ◌∷◌, ◌≡◌, refl,
  sym, ◌∙◌, ◌≢◌, inl, inr, ◌==◌, ==→eq, map, All, arith, Bool-cases, subst, ◌++◌, suc,
}
use ngy_coding_agent.Store.Schema.{find_where, update_where, count_where}

-- No number of the list is repeated.
abbrev pub Distinct : List ℕ → Type 0
Distinct [] = Unit
Distinct (x ∷ xs) = All (λ y. y ≢ x) xs × Distinct xs

pub All-map {ℓ κ μ} :
    {A : Type ℓ} (P : A → Type κ) (Q : A → Type μ) (xs : List A)
    → ((x : A) → P x → Q x)
    → All P xs
    → All Q xs
All-map P Q [] f h = tt
All-map P Q (x ∷ xs) f h = (f x h.0, All-map P Q xs f h.1)

pub All-and {ℓ κ μ} :
    {A : Type ℓ} (P : A → Type κ) (Q : A → Type μ) (xs : List A)
    → All P xs
    → All Q xs
    → All (λ x. P x × Q x) xs
All-and P Q [] h k = tt
All-and P Q (x ∷ xs) h k = ((h.0, k.0), All-and P Q xs h.1 k.1)

module _ {A : Type 0} where
  -- An UPDATE that matches no row changes none.
  pub update_none :
      (p : A → Bool) (f : A → A) (xs : List A) → count_where p xs ≡ 0 → update_where p f xs ≡ xs
  unfolding update_where count_where
  update_none p f [] h = refl
  update_none p f (x ∷ xs) h = ground (arith, update_none p f xs)

  pub find-All :
      (P : A → Type 0) (p : A → Bool) (xs : List A) {x : A}
      → find_where p xs ≡ some x
      → All P xs
      → P x × (p x ≡ true)
  unfolding find_where
  find-All P p [] h a = cc
  find-All P p (y ∷ ys) {x} h a = elim (Bool-cases (p y)) [
    | inl e ↦ let same : y ≡ x = ground arith in (subst P same a.0, ground arith)
    | inr e ↦ find-All P p ys (ground arith) a.1
  ]

module _ {A : Type 0} (key : A → ℕ) where
  abbrev pub keyed : ℕ → A → Bool
  keyed i x = key x == i

  -- `WHERE id = ? AND g`
  abbrev pub keyed_and : ℕ → (A → Bool) → A → Bool
  keyed_and i g x = key x == i && g x

  pub find-absent :
      (i : ℕ) (xs : List A) → All (λ y. y ≢ i) (map key xs) → find_where (keyed i) xs ≡ none
  unfolding find_where
  find-absent i [] h = refl
  find-absent i (x ∷ xs) h = ground (arith, find-absent i xs h.1)

  pub absent_of_find :
      (i : ℕ) (xs : List A) → find_where (keyed i) xs ≡ none → All (λ y. y ≢ i) (map key xs)
  unfolding find_where
  absent_of_find i [] h = tt
  absent_of_find i (x ∷ xs) h = (ground arith, absent_of_find i xs (ground arith))

  pub absent-All :
      (Q : A → Type 0) (i : ℕ) (xs : List A)
      → All (λ y. y ≢ i) (map key xs)
      → ((x : A) → key x ≢ i → Q x)
      → All Q xs
  absent-All Q i [] h f = tt
  absent-All Q i (x ∷ xs) h f = (f x h.0, absent-All Q i xs h.1 f)

  -- The row that is found has the key, and what all rows have.
  pub find-keyed :
      (P : A → Type 0) (i : ℕ) (xs : List A) {x : A}
      → find_where (keyed i) xs ≡ some x
      → All P xs
      → P x × (key x ≡ i)
  unfolding find_where
  find-keyed P i [] h a = cc
  find-keyed P i (y ∷ ys) {x} h a = elim (Bool-cases (keyed i y)) [
    | inl e ↦ let same : y ≡ x = ground arith in (subst P same a.0, ground arith)
    | inr e ↦ find-keyed P i ys (ground arith) a.1
  ]

  pub found-key : (i : ℕ) (xs : List A) {x : A} → find_where (keyed i) xs ≡ some x → key x ≡ i
  unfolding find_where
  found-key i [] h = cc
  found-key i (y ∷ ys) {x} h = ground (arith, found-key i ys {x = x})

  -- No other row has the key of the row that is found.
  pub All-found :
      (i : ℕ) (xs : List A) {x : A}
      → find_where (keyed i) xs ≡ some x
      → Distinct (map key xs)
      → All (λ y. key y ≡ i → y ≡ x) xs
  unfolding find_where
  All-found i [] h d = tt
  All-found i (y ∷ ys) {x} h d = elim (Bool-cases (keyed i y)) [
    | inl e ↦ (
      λ k. ground arith,
      absent-All (λ z. key z ≡ i → z ≡ x) (key y) ys d.0
          (λ z n k. absurd (n (k ∙ sym (==→eq (key y) i e)))),
    )
    | inr e ↦ (λ k. ground arith, All-found i ys (ground arith) d.1)
  ]

  pub map-update :
      (p : A → Bool) (f : A → A) (xs : List A)
      → ((x : A) → key (f x) ≡ key x)
      → map key (update_where p f xs) ≡ map key xs
  unfolding update_where
  map-update p f [] same = refl
  map-update p f (x ∷ xs) same = ground (arith, same x, map-update p f xs same)

  pub count-absent :
      (i : ℕ) (g : A → Bool) (xs : List A)
      → find_where (keyed i) xs ≡ none
      → count_where (keyed_and i g) xs ≡ 0
  unfolding find_where count_where
  count-absent i g [] h = refl
  count-absent i g (x ∷ xs) h = ground (arith, count-absent i g xs)

  pub count_refused :
      (i : ℕ) (g : A → Bool) (xs : List A)
      → All (λ y. key y ≡ i → g y ≡ false) xs
      → count_where (keyed_and i g) xs ≡ 0
  unfolding count_where
  count_refused i g [] h = refl
  count_refused i g (x ∷ xs) h = ground (arith, h.0, count_refused i g xs h.1)

  count-none :
      (i : ℕ) (g : A → Bool) (xs : List A)
      → All (λ y. y ≢ i) (map key xs)
      → count_where (keyed_and i g) xs ≡ 0
  unfolding count_where
  count-none i g [] h = refl
  count-none i g (x ∷ xs) h = ground (arith, count-none i g xs h.1)

  -- An UPDATE under a unique key, of a row that passes the further test, changes one row.
  pub count-found :
      (i : ℕ) (g : A → Bool) (xs : List A) {x : A}
      → find_where (keyed i) xs ≡ some x
      → Distinct (map key xs)
      → g x ≡ true
      → count_where (keyed_and i g) xs ≡ 1
  unfolding find_where count_where
  count-found i g [] h d t = cc
  count-found i g (y ∷ ys) {x} h d t = elim (Bool-cases (keyed i y)) [
    | inl e ↦
        let k : key y ≡ i = ==→eq (key y) i e in
        let here : count_where (keyed_and (key y) g) ys ≡ 0 = count-none (key y) g ys d.0 in
        ground arith
    | inr e ↦ ground (arith, count-found i g ys {x = x} (ground arith) d.1 t)
  ]

  keyed-true : (i : ℕ) → keyed_and i (λ _. true) ≡ keyed i
  keyed-true i = fun_ext λ x. ground arith

  pub count-key :
      (i : ℕ) (xs : List A) {x : A}
      → find_where (keyed i) xs ≡ some x
      → Distinct (map key xs)
      → count_where (keyed i) xs ≡ 1
  count-key i xs h d = rw (← keyed-true i) (count-found i (λ _. true) xs h d refl)

  -- Such an UPDATE by the key and a test is the UPDATE by the key alone.
  pub update_found :
      (i : ℕ) (g : A → Bool) (f : A → A) (xs : List A)
      → All (λ y. key y ≡ i → g y ≡ true) xs
      → update_where (keyed_and i g) f xs ≡ update_where (keyed i) f xs
  unfolding update_where
  update_found i g f [] h = refl
  update_found i g f (x ∷ xs) h = ground (arith, h.0, update_found i g f xs h.1)

  pub find-update :
      (i : ℕ) (f : A → A) (xs : List A) {x : A}
      → ((y : A) → key (f y) ≡ key y)
      → find_where (keyed i) xs ≡ some x
      → find_where (keyed i) (update_where (keyed i) f xs) ≡ some (f x)
  unfolding find_where update_where
  find-update i f [] same h = cc
  find-update i f (y ∷ ys) {x} same h = ground (arith, same y, find-update i f ys {x = x} same)

  pub find-update_ne :
      (i j : ℕ) (f : A → A) (xs : List A)
      → ((y : A) → key (f y) ≡ key y)
      → j ≢ i
      → find_where (keyed j) (update_where (keyed i) f xs) ≡ find_where (keyed j) xs
  unfolding find_where update_where
  find-update_ne i j f [] same n = refl
  find-update_ne i j f (y ∷ ys) same n = ground (arith, same y, find-update_ne i j f ys same n)

  pub find-update_none :
      (i j : ℕ) (f : A → A) (xs : List A)
      → ((y : A) → key (f y) ≡ key y)
      → find_where (keyed j) (update_where (keyed i) f xs) ≡ none
      → find_where (keyed j) xs ≡ none
  unfolding find_where update_where
  find-update_none i j f [] same h = refl
  find-update_none i j f (y ∷ ys) same h = ground (arith, same y, find-update_none i j f ys same)

  pub All-update :
      (P Q : A → Type 0) (i : ℕ) (f : A → A) (xs : List A)
      → ((x : A) → P x → key x ≡ i → Q (f x))
      → ((x : A) → P x → key x ≢ i → Q x)
      → All P xs
      → All Q (update_where (keyed i) f xs)
  unfolding update_where
  All-update P Q i f [] here there h = tt
  All-update P Q i f (x ∷ xs) here there h = elim (Bool-cases (keyed i x)) [
    | inl e ↦ rw e (here x h.0 (==→eq (key x) i e), All-update P Q i f xs here there h.1)
    | inr e ↦ rw e (there x h.0 (ground arith), All-update P Q i f xs here there h.1)
  ]

  pub find-snoc :
      (i : ℕ) (xs : List A) (x : A)
      → find_where (keyed i) xs ≡ none
      → key x ≡ i
      → find_where (keyed i) (xs ++ x ∷ []) ≡ some x
  unfolding find_where
  find-snoc i [] x h k = ground arith
  find-snoc i (y ∷ ys) x h k = ground (arith, find-snoc i ys x)

  pub find-snoc_none :
      (i : ℕ) (xs : List A) (x : A)
      → find_where (keyed i) (xs ++ x ∷ []) ≡ none
      → (find_where (keyed i) xs ≡ none) × (key x ≢ i)
  unfolding find_where
  find-snoc_none i [] x h = (refl, ground arith)
  find-snoc_none i (y ∷ ys) x h = ground (arith, find-snoc_none i ys x)

  pub Distinct-snoc :
      (xs : List A) (x : A)
      → Distinct (map key xs)
      → All (λ y. y ≢ key x) (map key xs)
      → Distinct (map key (xs ++ x ∷ []))
  Distinct-snoc [] x d h = (tt, tt)
  Distinct-snoc (y ∷ ys) x d h = (absent-snoc ys y d.0 h.0, Distinct-snoc ys x d.1 h.1)
    where
      absent-snoc :
          (zs : List A) (y : A)
          → All (λ z. z ≢ key y) (map key zs)
          → key y ≢ key x
          → All (λ z. z ≢ key y) (map key (zs ++ x ∷ []))
      absent-snoc [] y a n = (λ e. n (sym e), tt)
      absent-snoc (z ∷ zs) y a n = (a.0, absent-snoc zs y a.1 n)

  -- What an UPDATE under the key and a test has changed, when it has changed anything.
  pub count-eq_suc :
      (i : ℕ) (g : A → Bool) (xs : List A) {n : ℕ}
      → count_where (keyed_and i g) xs ≡ suc n
      → Distinct (map key xs)
      → (x : A) × (find_where (keyed i) xs ≡ some x) × (g x ≡ true)
  count-eq_suc i g xs h d = elim (Option-cases (find_where (keyed i) xs)) [
    | inl e ↦ absurd (omega (arith, count-absent i g xs e))
    | inr (x, e) ↦ elim (Bool-cases (g x)) [
      | inl t ↦ (x, e, t)
      | inr f ↦ absurd (omega (arith, count_refused i g xs (refused x e f)))
    ]
  ]
    where
      refused :
          (x : A)
          → find_where (keyed i) xs ≡ some x
          → g x ≡ false
          → All (λ y. key y ≡ i → g y ≡ false) xs
      refused x e f =
          All-map (λ y. key y ≡ i → y ≡ x) (λ y. key y ≡ i → g y ≡ false) xs
            (λ y same k. ap g (same k) ∙ f) (All-found i xs e d)

  pub update-eq :
      (i : ℕ) (g : A → Bool) (f : A → A) (xs : List A) {x : A}
      → find_where (keyed i) xs ≡ some x
      → g x ≡ true
      → Distinct (map key xs)
      → update_where (keyed_and i g) f xs ≡ update_where (keyed i) f xs
  update-eq i g f xs {x} e t d = update_found i g f xs (
      All-map (λ y. key y ≡ i → y ≡ x) (λ y. key y ≡ i → g y ≡ true) xs
        (λ y same k. ap g (same k) ∙ t) (All-found i xs e d))

pub Distinct-append :
    (xs : List ℕ) (y : ℕ) → Distinct xs → All (λ x. x ≢ y) xs → Distinct (xs ++ y ∷ [])
Distinct-append [] y d h = (tt, tt)
Distinct-append (x ∷ xs) y d h =
    (All-append (λ z. z ≢ x) xs (y ∷ []) d.0 (λ e. h.0 (sym e), tt), Distinct-append xs y d.1 h.1)
