-- ===== src/Domain/Prompt.antt =====
-- `NewTask::try_new` of crates/coding-agent-domain/src/task.rs: the prompt that it keeps.
use mathlib.Core.List.{reverse, reverse-reverse, reverse-append}
use ngy_coding_agent.Base.{
  ℕ, ◌<◌, ◌≤◌, ◌≡◌, refl, sym, ap, ◌∙◌, subst, List, [], ◌∷◌, ◌++◌, false, ok, length, arith,
  Bool-cases, inl, inr,
}
use ngy_coding_agent.Domain.Task.{NewTask, is_whitespace, trim_start, trim, try_new, max_prompt}

-- A text whose first character, if there is one, is no white space.
abbrev pub StartsBare : List ℕ → Type 0
StartsBare [] = Unit {0}
StartsBare (c ∷ cs) = is_whitespace c ≡ false

trim_start-StartsBare : (s : List ℕ) → StartsBare (trim_start s)
unfolding trim_start
trim_start-StartsBare [] = tt
trim_start-StartsBare (c ∷ cs) = elim (Bool-cases (is_whitespace c)) [
  | inl e ↦ rw e (trim_start-StartsBare cs)
  | inr e ↦ rw e e
]

trim_start_fixed : (s : List ℕ) → StartsBare s → trim_start s ≡ s
unfolding trim_start
trim_start_fixed [] h = refl
trim_start_fixed (c ∷ cs) h = rw h refl

-- What is cut is a beginning.
trim_start-suffix : (s : List ℕ) → (cut : List ℕ) × (s ≡ cut ++ trim_start s)
unfolding trim_start
trim_start-suffix [] = ([], refl)
trim_start-suffix (c ∷ cs) = elim (Bool-cases (is_whitespace c)) [
  | inl e ↦ let (cut, p) = trim_start-suffix cs in (c ∷ cut, rw e (ap (λ l. c ∷ l) p))
  | inr e ↦ ([], rw e refl)
]

prefix-StartsBare : (xs ys : List ℕ) → StartsBare (xs ++ ys) → StartsBare xs
prefix-StartsBare [] ys h = tt
prefix-StartsBare (x ∷ xs) ys h = h

-- Both ends of a trimmed text are bare.
abbrev pub IsTrimmed : List ℕ → Type 0
IsTrimmed s = StartsBare s × StartsBare (reverse s)

trim-IsTrimmed : (s : List ℕ) → IsTrimmed (trim s)
unfolding trim
trim-IsTrimmed s =
    let a = trim_start s in
    let c = trim_start (reverse a) in
    let (cut, p) = trim_start-suffix (reverse a) in
    let whole : a ≡ reverse c ++ reverse cut =
      sym (reverse-reverse a) ∙ ap reverse p ∙ reverse-append cut c in
    (
      prefix-StartsBare (reverse c) (reverse cut)
          (subst StartsBare whole (trim_start-StartsBare s)),
      subst StartsBare (sym (reverse-reverse c)) (trim_start-StartsBare (reverse a)),
    )

trim_fixed : (s : List ℕ) → IsTrimmed s → trim s ≡ s
unfolding trim
trim_fixed s h =
    ap (λ l. reverse (trim_start (reverse l))) (trim_start_fixed s h.0)
    ∙ ap reverse (trim_start_fixed (reverse s) h.1)
    ∙ reverse-reverse s

-- What a new task keeps of a prompt: both ends are bare, its length is 1 to 50000, and taking it as
-- a prompt again gives the same task.
pub record IsPrompt (prompt : List ℕ) : Type 0 where
  pub trimmed : IsTrimmed prompt
  pub filled : 0 < length prompt
  pub short : length prompt ≤ max_prompt

module _ (request repository : ℕ) (prompt : List ℕ) where
  kept :
      {new : NewTask}
      → try_new request repository prompt ≡ ok new
      → (new.prompt ≡ trim prompt)
        × (0 < length (trim prompt))
        × (length (trim prompt) ≤ max_prompt)
  unfolding try_new
  kept {new} h = ground arith

  -- A prompt that is accepted is kept without white space at either end, and has 1 to 50000
  -- characters.
  pub try_new-IsPrompt :
      {new : NewTask} → try_new request repository prompt ≡ ok new → IsPrompt new.prompt
  try_new-IsPrompt {new} h =
      let (same, filled, short) = kept h in
      subst IsPrompt (sym same)
        (record { trimmed = trim-IsTrimmed prompt; filled = filled; short = short })

  -- A prompt without white space at its ends and with 1 to 50000 characters is accepted and kept
  -- as it is, so that an accepted prompt can be taken again.
  pub IsPrompt-try_new :
      IsPrompt prompt
      → try_new request repository prompt
        ≡ ok (record { client_request_id = request; repository_id = repository; prompt = prompt })
  unfolding try_new
  IsPrompt-try_new h = ground (arith, trim_fixed prompt h.trimmed, h.filled, h.short)
