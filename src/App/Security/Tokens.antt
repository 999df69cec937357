-- ===== src/App/Security/Tokens.antt =====
-- The launch tokens of crates/coding-agent-app/src/security.rs: each can be exchanged once, in time.
use ngy_coding_agent.Base.{
  ℕ, suc, ◌+◌, ◌≡◌, ◌≢◌, refl, sym, ap, subst, ◌∙◌, ◌⊎◌, inl, inr, Bool, true, ◌&&◌, Option, none,
  some, String, List, [], ◌∷◌, ok, err, ltb, if◌then◌else◌, map, All, Bool-cases, Option-cases,
  arith,
}
use ngy_coding_agent.Store.Schema.{select_where, count_where}
use ngy_coding_agent.Store.Table.{Distinct}
use ngy_coding_agent.App.Security.{
  last_some, invalid_launch_token, LaunchTokenRecord, SecurityState, is_live, other_token,
  token_matches, matched_id, remove_matched, consume_launch_token, issue_launch_token,
  issued_record, secret_matches, launch_token_lifetime,
}

abbrev pub ids : List LaunchTokenRecord → List ℕ
ids l = map (λ r. r.id) l

module _ {A : Type 0} (p q : A → Bool) where
  -- What is counted among the selected.
  pub count-select :
      (xs : List A) → count_where p (select_where q xs) ≡ count_where (λ x. q x && p x) xs
  unfolding count_where select_where
  count-select [] = refl
  count-select (x ∷ xs) = ground (arith, count-select xs)

  pub count-same : (xs : List A) → ((x : A) → p x ≡ q x) → count_where p xs ≡ count_where q xs
  unfolding count_where
  count-same [] h = refl
  count-same (x ∷ xs) h = ground (arith, count-same xs h, h x)

absorbed : (a b c : Bool) → (a && (b && (a && c))) ≡ (a && (b && c))
absorbed a b c = ground arith

-- Among the entries that are selected by `q`, selecting by it again makes no difference.
count-again :
    {A : Type 0} (p q o : A → Bool) (xs : List A)
    → count_where (λ x. q x && p x) (select_where o (select_where q xs))
      ≡ count_where p (select_where o (select_where q xs))
count-again p q o xs =
    count-select (λ x. q x && p x) o (select_where q xs)
    ∙ count-select (λ x. o x && (q x && p x)) q xs
    ∙ count-same _ _ xs (λ x. absorbed (q x) (o x) (p x))
    ∙ sym (count-select (λ x. o x && p x) q xs)
    ∙ sym (count-select p o (select_where q xs))

select-ids-All :
    (P : ℕ → Type 0) (q : LaunchTokenRecord → Bool) (l : List LaunchTokenRecord)
    → All P (ids l)
    → All P (ids (select_where q l))
unfolding select_where
select-ids-All P q [] h = tt
select-ids-All P q (r ∷ rs) h = elim (Bool-cases (q r)) [
  | inl e ↦ rw e (h.0, select-ids-All P q rs h.1)
  | inr e ↦ rw e (select-ids-All P q rs h.1)
]

pub select-Distinct :
    (q : LaunchTokenRecord → Bool) (l : List LaunchTokenRecord)
    → Distinct (ids l)
    → Distinct (ids (select_where q l))
unfolding select_where
select-Distinct q [] h = tt
select-Distinct q (r ∷ rs) h = elim (Bool-cases (q r)) [
  | inl e ↦ rw e (select-ids-All _ q rs h.0, select-Distinct q rs h.1)
  | inr e ↦ rw e (select-Distinct q rs h.1)
]

-- No entry has the key.
others-All :
    (p : LaunchTokenRecord → Bool) (id : ℕ) (l : List LaunchTokenRecord)
    → All (λ y. y ≢ id) (ids l)
    → count_where p (select_where (other_token id) l) ≡ count_where p l
unfolding select_where count_where other_token
others-All p id [] h = refl
others-All p id (r ∷ rs) h = ground (arith, others-All p id rs h.1, h.0)

module _ (decode : String → Option (List ℕ)) (presented : String) where
  -- Whether an entry matches.
  abbrev hit : LaunchTokenRecord → Bool
  hit = token_matches decode presented

  matched-none :
      (l : List LaunchTokenRecord) → matched_id decode presented l ≡ none → count_where hit l ≡ 0
  unfolding matched_id last_some count_where
  matched-none [] h = refl
  matched-none (r ∷ rs) h = elim (Option-cases (matched_id decode presented rs)) [
    | inl e ↦ ground (arith, e, matched-none rs e)
    | inr (i, e) ↦ ground (arith, e)
  ]

  -- What holds of every key holds of the one that matched.
  matched-All :
      (P : ℕ → Type 0) (l : List LaunchTokenRecord) {id : ℕ}
      → All P (ids l)
      → matched_id decode presented l ≡ some id
      → P id
  unfolding matched_id last_some
  matched-All P [] a h = cc
  matched-All P (r ∷ rs) {id} a h = elim (Option-cases (matched_id decode presented rs)) [
    | inl e ↦ let same : r.id ≡ id = ground (arith, e) in subst P same a.0
    | inr (i, e) ↦ let same : i ≡ id = ground (arith, e) in subst P same (matched-All P rs a.1 e)
  ]

  -- The entry of the id that matched is one of those that match.
  matched-some :
      (l : List LaunchTokenRecord) {id : ℕ}
      → Distinct (ids l)
      → matched_id decode presented l ≡ some id
      → suc (count_where hit (select_where (other_token id) l)) ≡ count_where hit l
  unfolding matched_id last_some count_where select_where other_token
  matched-some [] d h = cc
  matched-some (r ∷ rs) {id} d h = elim (Option-cases (matched_id decode presented rs)) [
    | inl e ↦
        let same : r.id ≡ id = ground (arith, e) in
        let hits : hit r ≡ true = ground (arith, e) in
        let rest =
          subst (λ i. count_where hit (select_where (other_token i) rs) ≡ count_where hit rs) same
            (others-All hit r.id rs d.0) in
        ground (arith, same, hits, rest)
    | inr (i, e) ↦
        let same : i ≡ id = ground (arith, e) in
        let apart : id ≢ r.id = subst (λ k. k ≢ r.id) same (matched-All (λ y. y ≢ r.id) rs d.0 e) in
        let rest = matched-some rs d.1 (e ∙ ap some same) in ground (arith, apart, rest)
  ]

  -- How many entries a presented token can be exchanged for at a time.
  abbrev pub usable : ℕ → SecurityState → ℕ
  usable now s = count_where (λ r. is_live now r && hit r) s.launch_tokens

  -- With distinct keys, either no live entry matches the presented token and consuming it is
  -- refused as invalid, or consuming it succeeds and exactly one entry fewer is live and matches:
  -- a token that was issued once is exchanged at most once.
  pub consume_launch_token-once :
      (now : ℕ) (s : SecurityState)
      → Distinct (ids s.launch_tokens)
      → ((usable now s ≡ 0)
          × ((consume_launch_token decode presented now s).0 ≡ err invalid_launch_token))
        ⊎ (((consume_launch_token decode presented now s).0 ≡ ok tt)
            × (suc (usable now (consume_launch_token decode presented now s).1) ≡ usable now s))
  unfolding consume_launch_token remove_matched
  consume_launch_token-once now s d =
      let live = select_where (is_live now) s.launch_tokens in
      let counted = count-select hit (is_live now) s.launch_tokens in
      elim (Option-cases (matched_id decode presented live)) [
        | inl e ↦ rw e (inl (sym counted ∙ matched-none live e, refl))
        | inr (id, e) ↦ rw e (
            inr (
              refl,
              ap suc (count-again hit (is_live now) (other_token id) s.launch_tokens)
                  ∙ matched-some live (select-Distinct (is_live now) s.launch_tokens d) e
                  ∙ counted,
            ))
      ]

  -- Issuing a token under a key that is not in use adds, for every presented token, one usable
  -- entry exactly when the issued token matches it and its lifetime is not over, and takes none
  -- away.
  pub issue_launch_token-usable :
      (now later : ℕ) (token : String) (s : SecurityState)
      → All (λ y. y ≢ s.next_launch_token_id) (ids s.launch_tokens)
      → usable later (issue_launch_token (some token) now s).1
        ≡ usable later s
          + (if ltb later (now + launch_token_lifetime) && secret_matches decode token presented
              then 1
              else 0)
  unfolding issue_launch_token issued_record count_where
  issue_launch_token-usable now later token s fresh =
      let rest =
        others-All (λ r. is_live later r && hit r) s.next_launch_token_id s.launch_tokens fresh in
      ground (arith, rest)
