-- ===== src/Config/Roots.antt =====
-- The files that a glob names and the directories that are watched: `expandGlob`, `watchRoot`, and
-- the last part of `Load`, which keeps the roots that no other covers.
pub mod Nearest
pub mod Cover
use ooth.Prelude.{
  ℕ, zero, suc, Bool, true, false, not, ◌&&◌, ◌||◌, ◌==◌, Option, none, some, List, [], ◌∷◌, ◌++◌,
  if◌then◌else◌, any, length, ltb, Result, ok, err, ◌>>=◌, ◌>>◌, refuse_if,
}
use ooth.Prelude.Texts.{Text, codes, text_eq, contains, split, starts_with}

-- os.Stat: what is there, nothing, or another error.
pub data Stat : Type 0 where
  directory file missing unreadable : Stat

-- A step of filepath.WalkDir: an entry, one that is gone, or another error.
pub data Visit : Type 0 where
  entry gone broken : Text → Visit

pub record Files : Type 0 where
  pub stat : Text → Stat
  -- filepath.Glob, and the steps of filepath.WalkDir
  pub glob : Text → Option (List Text)
  pub walk : Text → List Visit
  -- whether path.Match accepts the pattern, with slashes
  pub is_pattern : Text → Bool
  pub dir : Text → Text
  -- filepath.Rel
  pub rel : Text → Text → Option Text

pub data RootError : Type 0 where
  invalid_glob cannot_watch not_readable : Text → RootError
  out_of_fuel : RootError

-- The walk goes on over files that disappear, and ends at any other error.
unfoldable pub walk_matches : (Text → Bool) → List Visit → Option (List Text)
walk_matches test [] = some []
walk_matches test (gone path ∷ rest) = walk_matches test rest
walk_matches test (broken path ∷ rest) = none
walk_matches test (entry path ∷ rest) = elim (walk_matches test rest) [
  | none ↦ none
  | some found ↦ some (if test path then path ∷ found else found)
]

-- What stands before the first wild card.
unfoldable pub before_wild : Text → Text
before_wild [] = []
before_wild (c ∷ s) =
    let rest = before_wild s in if c == b'*' || c == b'?' || c == b'[' then [] else c ∷ rest

module _ (files : Files) where
  -- `match_glob` stands for `matchGlob`.
  unfoldable pub expand_glob : (Text → Text → Bool) → Text → Text → Option (List Text)
  expand_glob match_glob pattern root =
      if not (contains (split b'/' pattern) (codes "**"))
      then files.glob pattern
      else walk_matches (match_glob pattern) (files.walk root)

  -- The loop of `watchRoot`.
  unfoldable pub climb : ℕ → Text → Result RootError Text
  climb zero root = err out_of_fuel
  climb (suc fuel) root =
      let parent = files.dir root in
      let rest = climb fuel parent in
      let above = if text_eq parent root then err (cannot_watch root) else rest in
      elim (files.stat root) [
        | directory ↦ ok root
        | unreadable ↦ err (not_readable root)
        | file ↦ above
        | missing ↦ above
      ]

  unfoldable pub watch_root : Text → Result RootError Text
  watch_root pattern =
      let root = files.dir (before_wild pattern) in
      refuse_if (not (files.is_pattern pattern)) (invalid_glob pattern)
      >> climb (suc (suc (length root))) root

  -- `err == nil && relative != ".." && !strings.HasPrefix(relative, "../")`
  unfoldable pub covers : Text → Text → Bool
  covers parent root = elim (files.rel parent root) [
    | none ↦ false
    | some relative ↦
        not (text_eq relative (codes "..")) && not (starts_with (codes "../") relative)
  ]

  -- The loop over the sorted roots.
  unfoldable pub keep_roots : List Text → List Text → List Text
  keep_roots kept [] = kept
  keep_roots kept (root ∷ rest) =
      keep_roots (if any (λ parent. covers parent root) kept then kept else kept ++ root ∷ []) rest

-- The order of Go's strings.
unfoldable pub before : Text → Text → Bool
before [] [] = false
before [] (d ∷ t) = true
before (c ∷ s) [] = false
before (c ∷ s) (d ∷ t) = ltb c d || (c == d && before s t)

-- slices.Sort, by insertion
unfoldable pub insert_sorted : Text → List Text → List Text
insert_sorted s [] = s ∷ []
insert_sorted s (t ∷ l) = if before t s then t ∷ insert_sorted s l else s ∷ t ∷ l

unfoldable pub sort : List Text → List Text
unfolding insert_sorted
sort [] = []
sort (s ∷ l) = insert_sorted s (sort l)

-- slices.Compact, with the element before
unfoldable pub compact_after : Text → List Text → List Text
compact_after s [] = []
compact_after s (t ∷ l) = if text_eq t s then compact_after s l else t ∷ compact_after t l

unfoldable pub compact : List Text → List Text
unfolding compact_after
compact [] = []
compact (s ∷ l) = s ∷ compact_after s l

unfoldable pub watched_roots : Files → List Text → List Text
watched_roots files roots = keep_roots files [] (compact (sort roots))
