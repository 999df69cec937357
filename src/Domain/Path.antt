-- ===== src/Domain/Path.antt =====
-- `CanonicalPath` of crates/coding-agent-domain/src/value.rs. The path operations that it uses are
-- those of Unix; a path is the list of its bytes.
use ngy_coding_agent.Base.{
  ℕ, Bool, true, false, ◌&&◌, ◌||◌, not, List, [], ◌∷◌, ◌++◌, ◌==◌, if◌then◌else◌, Result, ok, err,
  ◌≡◌,
}
use ngy_coding_agent.Domain.Value.{DomainError, invalid_canonical_path}

abbrev pub slash : ℕ
slash = b'/'

abbrev pub dot : ℕ
dot = b'.'

pub data Component : Type 0 where
  root_dir cur_dir parent_dir : Component
  normal : List ℕ → Component

abbrev add_first : ℕ → List (List ℕ) → List (List ℕ)
add_first c [] = (c ∷ []) ∷ []
add_first c (s ∷ ss) = (c ∷ s) ∷ ss

-- The texts between the slashes.
unfoldable pub segments : List ℕ → List (List ℕ)
segments [] = [] ∷ []
segments (c ∷ cs) = let rest = segments cs in if c == slash then [] ∷ rest else add_first c rest

abbrev is_dot : List ℕ → Bool
is_dot (c ∷ []) = c == dot
is_dot _ = false

abbrev is_dot_dot : List ℕ → Bool
is_dot_dot (c ∷ d ∷ []) = c == dot && d == dot
is_dot_dot _ = false

abbrev named : List ℕ → List Component → List Component
named [] rest = rest
named (c ∷ cs) rest =
    if is_dot (c ∷ cs)
    then rest
    else if is_dot_dot (c ∷ cs)
    then parent_dir ∷ rest
    else normal (c ∷ cs) ∷ rest

-- Empty segments and `.` are skipped.
unfoldable pub named_components : List (List ℕ) → List Component
named_components [] = []
named_components (s ∷ ss) = named s (named_components ss)

unfoldable pub is_absolute : List ℕ → Bool
is_absolute [] = false
is_absolute (c ∷ cs) = c == slash

abbrev leading : List (List ℕ) → List Component
leading [] = []
leading (s ∷ ss) = if is_dot s then cur_dir ∷ [] else []

-- `Path::components`
unfoldable pub components : List ℕ → List Component
unfolding segments named_components is_absolute
components path =
    (if is_absolute path then root_dir ∷ [] else leading (segments path))
    ++ named_components (segments path)

abbrev component_text : Component → List ℕ
component_text root_dir = slash ∷ []
component_text cur_dir = dot ∷ []
component_text parent_dir = dot ∷ dot ∷ []
component_text (normal s) = s

abbrev needs_slash : List ℕ → Bool
needs_slash [] = false
needs_slash (c ∷ []) = not (c == slash)
needs_slash (c ∷ cs) = needs_slash cs

-- `PathBuf::push`
unfoldable pub push : List ℕ → Component → List ℕ
push path root_dir = slash ∷ []
push path c = (if needs_slash path then path ++ slash ∷ [] else path) ++ component_text c

-- `components().collect::<PathBuf>()`
unfoldable pub collect_from : List ℕ → List Component → List ℕ
unfolding push
collect_from path [] = path
collect_from path (c ∷ cs) = collect_from (push path c) cs

unfoldable pub has_forbidden : List Component → Bool
has_forbidden [] = false
has_forbidden (cur_dir ∷ cs) = true
has_forbidden (parent_dir ∷ cs) = true
has_forbidden (root_dir ∷ cs) = has_forbidden cs
has_forbidden (normal s ∷ cs) = has_forbidden cs

unfoldable pub same_path : List ℕ → List ℕ → Bool
same_path [] [] = true
same_path [] (y ∷ ys) = false
same_path (x ∷ xs) [] = false
same_path (x ∷ xs) (y ∷ ys) = x == y && same_path xs ys

unfoldable pub try_from_canonical : List ℕ → Result DomainError (List ℕ)
unfolding components collect_from has_forbidden same_path
try_from_canonical path =
    let normalized = collect_from [] (components path) in
    if not (is_absolute path) || has_forbidden (components path) || not (same_path normalized path)
    then err invalid_canonical_path
    else ok path

-- A path that the check has accepted.
pub record CanonicalPath : Type 0 where
  pub path : List ℕ
  pub accepted : try_from_canonical path ≡ ok path
