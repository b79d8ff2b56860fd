-- ===== src/Config/Glob/Meaning.antt =====
-- What a pattern of path elements means, and that `matchGlob` decides it.
use ooth.Prelude.{
  ◌≡◌, refl, sym, ◌↔◌, ◌⊎◌, inl, inr, Bool, true, false, ◌||◌, ◌&&◌, List, [], ◌∷◌, Bool-cases,
  arith,
}
use mathlib.Core.Bool.{true≢false}
use ooth.Prelude.Texts.{Text, split}
use ooth.Config.Glob.{is_deep, some_suffix, match_one, match_elements, match_glob}

-- The paths of a pattern: `**` takes no element or one more, any other element of the pattern takes
-- one that it matches.
pub data Names (element_matches : Text → Text → Bool) : List Text → List Text → Type 0 where
  ended : Names element_matches [] []
  deep_done :
      {p : Text} {ps path : List Text}
      → is_deep p ≡ true
      → Names element_matches ps path
      → Names element_matches (p ∷ ps) path
  deep_more :
      {p c : Text} {ps path : List Text}
      → is_deep p ≡ true
      → Names element_matches (p ∷ ps) path
      → Names element_matches (p ∷ ps) (c ∷ path)
  element :
      {p c : Text} {ps path : List Text}
      → is_deep p ≡ false
      → element_matches p c ≡ true
      → Names element_matches ps path
      → Names element_matches (p ∷ ps) (c ∷ path)

module _ (f : Text → Text → Bool) where
  or_cases : (a b : Bool) → (a || b) ≡ true → (a ≡ true) ⊎ (b ≡ true)
  or_cases a b h = ground arith

  or_true : (a : Bool) → (a || true) ≡ true
  or_true a = ground arith

  and_both : (a b : Bool) → (a && b) ≡ true → (a ≡ true) × (b ≡ true)
  and_both a b h = ground arith

  some_suffix-Names :
      (p : Text) (ps : List Text)
      → is_deep p ≡ true
      → ((path : List Text) → match_elements f ps path ≡ true → Names f ps path)
      → (path : List Text) → some_suffix (match_elements f ps) path ≡ true
      → Names f (p ∷ ps) path
  unfolding some_suffix
  some_suffix-Names p ps deep sound [] h = deep_done deep (sound [] h)
  some_suffix-Names p ps deep sound (c ∷ cs) h =
      elim (or_cases (match_elements f ps (c ∷ cs)) _ h) [
        | inl here ↦ deep_done deep (sound (c ∷ cs) here)
        | inr later ↦ deep_more deep (some_suffix-Names p ps deep sound cs later)
      ]

  match_one-Names :
      (p : Text) (ps : List Text)
      → is_deep p ≡ false
      → ((path : List Text) → match_elements f ps path ≡ true → Names f ps path)
      → (path : List Text) → match_one f p (match_elements f ps) path ≡ true
      → Names f (p ∷ ps) path
  unfolding match_one
  match_one-Names p ps plain sound [] h = absurd (true≢false (sym h))
  match_one-Names p ps plain sound (c ∷ cs) h =
      let parts = and_both (f p c) (match_elements f ps cs) h in
      element plain parts.0 (sound cs parts.1)

  match_elements-Names :
      (pattern path : List Text) → match_elements f pattern path ≡ true → Names f pattern path
  unfolding match_elements
  match_elements-Names [] [] h = ended
  match_elements-Names [] (c ∷ cs) h = absurd (true≢false (sym h))
  match_elements-Names (p ∷ ps) path h = elim (Bool-cases (is_deep p)) [
    | inl deep ↦ some_suffix-Names p ps deep (match_elements-Names ps) path (rw deep at h)
    | inr plain ↦ match_one-Names p ps plain (match_elements-Names ps) path (rw plain at h)
  ]

  some_suffix-step :
      (test : List Text → Bool) (path : List Text) → test path ≡ true → some_suffix test path ≡ true
  unfolding some_suffix
  some_suffix-step test [] h = h
  some_suffix-step test (c ∷ cs) h = rw h refl

  Names-match_elements :
      {pattern path : List Text} → Names f pattern path → match_elements f pattern path ≡ true
  unfolding match_elements some_suffix match_one
  Names-match_elements ended = refl
  Names-match_elements (deep_done {ps} {path} deep n) =
      rw deep (some_suffix-step (match_elements f ps) path (Names-match_elements n))
  Names-match_elements (deep_more {c} {ps} {path} deep n) =
      let later = rw deep at (Names-match_elements n) in
      rw deep (rw later (or_true (match_elements f ps (c ∷ path))))
  Names-match_elements (element plain m n) = rw (plain, m) (Names-match_elements n)

-- A glob matches a path exactly when the elements of the path, between slashes and after cleaning,
-- are named by those of the pattern: `**` takes any number of elements, any other element of the
-- pattern takes one that it matches.
pub match_glob-Names :
    (element_matches : Text → Text → Bool) (clean : Text → Text) (pattern path : Text)
    → (match_glob element_matches clean pattern path ≡ true)
      ↔ Names element_matches (split b'/' (clean pattern)) (split b'/' (clean path))
unfolding match_glob
match_glob-Names f clean pattern path = (
  match_elements-Names f (split b'/' (clean pattern)) (split b'/' (clean path)),
  λ n. Names-match_elements f n,
)
