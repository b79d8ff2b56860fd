-- ===== src/Config/Glob.antt =====
-- `matchGlob`: a pattern of path elements, in which `**` stands for any number of them.
-- `filepath.Match` and `filepath.Clean` are parameters; the separator is a slash.
pub mod Meaning
use ooth.Prelude.{ℕ, Bool, true, false, ◌||◌, ◌&&◌, List, [], ◌∷◌, if◌then◌else◌}
use ooth.Prelude.Texts.{Text, codes, text_eq, split}

abbrev pub is_deep : Text → Bool
is_deep element = text_eq element (codes "**")

-- The loop over the suffixes of the path, the path itself first.
unfoldable pub some_suffix : (List Text → Bool) → List Text → Bool
some_suffix test [] = test []
some_suffix test (c ∷ cs) = test (c ∷ cs) || some_suffix test cs

-- The rest of a pattern after an element that is not `**`.
unfoldable pub match_one : (Text → Text → Bool) → Text → (List Text → Bool) → List Text → Bool
match_one element_matches element rest [] = false
match_one element_matches element rest (c ∷ cs) = element_matches element c && rest cs

unfoldable pub match_elements : (Text → Text → Bool) → List Text → List Text → Bool
match_elements element_matches [] [] = true
match_elements element_matches [] (c ∷ cs) = false
match_elements element_matches (p ∷ ps) path =
    let rest = match_elements element_matches ps in
    if is_deep p then some_suffix rest path else match_one element_matches p rest path

unfoldable pub match_glob : (Text → Text → Bool) → (Text → Text) → Text → Text → Bool
match_glob element_matches clean pattern path =
    match_elements element_matches (split b'/' (clean pattern)) (split b'/' (clean path))
