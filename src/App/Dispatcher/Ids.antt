-- ===== src/App/Dispatcher/Ids.antt =====
-- Lists of event ids that rise, as crates/coding-agent-app/src/event_dispatcher.rs reads them page
-- by page: what is above a cursor, and what a page takes of it.
use ngy_coding_agent.Base.{
  ℕ, zero, suc, ◌<◌, ◌≤◌, ◌≡◌, refl, sym, ap, subst, ◌∙◌, List, [], ◌∷◌, ◌++◌, false, arith, ltb,
  lt→ltb, ltb→lt, leb, ◌==◌, ◌||◌, Bool-cases, inl, inr, All, take, ◌&&◌,
}
use Prim.Native.Nat.{max}
use ngy_coding_agent.Domain.Event.{TaskEvent}
use ngy_coding_agent.Store.Schema.{EventRow, select_where}
use ngy_coding_agent.Store.History.{Rising}
use ngy_coding_agent.Store.Pages.{Ascending, Ascending-weaken, ids, event_ids}

-- The ids above a cursor, and where a cursor stands after some.
abbrev pub above : ℕ → List ℕ → List ℕ
above c ns = select_where (ltb c) ns

abbrev pub last_id : ℕ → List ℕ → ℕ
last_id c [] = c
last_id c (n ∷ ns) = last_id n ns

pub last_id-le : (c : ℕ) (ns : List ℕ) → Ascending c ns → c ≤ last_id c ns
last_id-le c [] a = omega arith
last_id-le c (n ∷ ns) a = omega (arith, a.0, last_id-le n ns a.1)

pub above_all : (c : ℕ) (ns : List ℕ) → Ascending c ns → above c ns ≡ ns
unfolding select_where
above_all c [] a = refl
above_all c (n ∷ ns) a =
    rw (lt→ltb c n a.0, above_all c ns (Ascending-weaken c n ns (omega (arith, a.0)) a.1)) refl

pub above-Ascending : (c lo : ℕ) (ns : List ℕ) → Ascending lo ns → Ascending c (above c ns)
unfolding select_where
above-Ascending c lo [] a = tt
above-Ascending c lo (n ∷ ns) a = elim (Bool-cases (ltb c n)) [
  | inl t ↦
      let le = ltb→lt c n t in
      rw (t, above_all c ns (Ascending-weaken c n ns (omega arith) a.1)) (le, a.1)
  | inr f ↦ rw f (above-Ascending c n ns a.1)
]

pub take-Ascending : (k lo : ℕ) (ns : List ℕ) → Ascending lo ns → Ascending lo (take k ns)
take-Ascending zero lo ns a = tt
take-Ascending (suc k) lo [] a = tt
take-Ascending (suc k) lo (n ∷ ns) a = (a.0, take-Ascending k n ns a.1)

-- Taking some of the ids above a cursor does not move it back.
pub taken_bound : (k c lo : ℕ) (ns : List ℕ) → Ascending lo ns → c ≤ last_id c (take k (above c ns))
taken_bound k c lo ns a = last_id-le c _ (take-Ascending k c _ (above-Ascending c lo ns a))

pub above_skip : (c n : ℕ) (ns : List ℕ) → n ≤ c → above c (n ∷ ns) ≡ above c ns
unfolding select_where
above_skip c n ns h = ground arith

pub above_keep : (c n : ℕ) (ns : List ℕ) → c < n → above c (n ∷ ns) ≡ n ∷ above c ns
unfolding select_where
above_keep c n ns h = ground arith

-- What is above a cursor is what is taken of it, then what is above the last of that.
pub above_split :
    (k c lo : ℕ) (ns : List ℕ)
    → Ascending lo ns
    → above c ns ≡ take k (above c ns) ++ above (last_id c (take k (above c ns))) ns
above_split zero c lo ns a = refl
above_split (suc k) c lo [] a = unfold select_where in refl
above_split (suc k) c lo (n ∷ ns) a = elim (Bool-cases (ltb c n)) [
  | inl t ↦
      let less = ltb→lt c n t in
      let same : above c ns ≡ above n ns =
        above_all c ns (Ascending-weaken c n ns (omega arith) a.1) ∙ sym (above_all n ns a.1) in
      rw (above_keep c n ns less, same)
        (ap (λ l. n ∷ l)
          (above_split k n n ns a.1
            ∙ ap (λ l. take k (above n ns) ++ l)
                (sym
                  (above_skip (last_id n (take k (above n ns))) n ns (taken_bound k n n ns a.1)))))
  | inr f ↦
      let more : n ≤ c = ground arith in
      let bound = taken_bound (suc k) c n ns a.1 in
      rw (above_skip c n ns more) (
        above_split (suc k) c n ns a.1
        ∙ ap (λ l. take (suc k) (above c ns) ++ l)
            (sym (
              above_skip (last_id c (take (suc k) (above c ns))) n ns
                (omega (arith, bound, more)))))
]

pub last-above :
    (c lo hi : ℕ) (es : List EventRow)
    → Rising lo hi es
    → last_id (max c lo) (above c (ids es)) ≡ max c hi
unfolding select_where
last-above c lo hi [] r = omega arith
last-above c lo hi (e ∷ es) r = elim (Bool-cases (ltb c e.id)) [
  | inl t ↦
      let less = ltb→lt c e.id t in
      let here : max c e.id ≡ e.id = omega arith in
      rw t (subst (λ m. last_id m (above c (ids es)) ≡ max c hi) here (last-above c e.id hi es r.1))
  | inr f ↦
      let more : e.id ≤ c = ground arith in
      let here : max c e.id ≡ max c lo = omega (arith, r.0) in
      rw f (subst (λ m. last_id m (above c (ids es)) ≡ max c hi) here (last-above c e.id hi es r.1))
]

pub above_none : (c hi : ℕ) (ns : List ℕ) → All (λ n. n ≤ hi) ns → hi ≤ c → above c ns ≡ []
unfolding select_where
above_none c hi [] h le = refl
above_none c hi (n ∷ ns) h le = ground (arith, h.0, above_none c hi ns h.1 le)

pub event_ids-append :
    (xs ys : List TaskEvent) → event_ids (xs ++ ys) ≡ event_ids xs ++ event_ids ys
event_ids-append [] ys = refl
event_ids-append (x ∷ xs) ys = ap (λ l. x.id ∷ l) (event_ids-append xs ys)

pub ids-take : (k : ℕ) (es : List EventRow) → ids (take k es) ≡ take k (ids es)
ids-take zero es = refl
ids-take (suc k) [] = refl
ids-take (suc k) (e ∷ es) = ap (λ l. e.id ∷ l) (ids-take k es)

-- What a page of the whole log may hold are the ids above the cursor.
pub select-above :
    (c hi : ℕ) (es : List EventRow)
    → All (λ e. e.id ≤ hi) es
    → ids (select_where (λ e. ltb c e.id && leb e.id hi) es) ≡ above c (ids es)
unfolding select_where
select-above c hi [] h = refl
select-above c hi (e ∷ es) h = ground (arith, h.0, select-above c hi es h.1)

pub bound-ids : (hi : ℕ) (es : List EventRow) → All (λ e. e.id ≤ hi) es → All (λ n. n ≤ hi) (ids es)
bound-ids hi [] h = tt
bound-ids hi (e ∷ es) h = (h.0, bound-ids hi es h.1)

pub taken_nothing :
    (k c : ℕ) (ns : List ℕ) → Ascending c ns → last_id c (take (suc k) ns) ≡ c → ns ≡ []
taken_nothing k c [] a h = refl
taken_nothing k c (n ∷ ns) a h =
    absurd (omega (arith, a.0, h, last_id-le n (take k ns) (take-Ascending k n ns a.1)))

pub goes_on : (hi n c : ℕ) → (leb hi n || n == c) ≡ false → c ≤ n → (n < hi) × (c < n)
goes_on hi n c h le = ground arith
