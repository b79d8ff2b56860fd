-- ===== src/Config/Roots/Nearest.antt =====
-- `watchRoot` finds the nearest directory above a glob, and comes to an end.
use ooth.Prelude.{ℕ, ◌<◌, ◌≡◌, ◌⊎◌, length, if◌then◌else◌, Result, err}
use ooth.Prelude.Texts.{Text, text_eq}
use ooth.Config.Roots.{Files, directory, file, missing, RootError, cannot_watch, climb}

-- The nearest directory at a path or above it: whatever is nearer exists as no directory.
pub data Nearest (files : Files) : Text → Text → Type 0 where
  at : {root found : Text} → files.stat root ≡ directory → found ≡ root → Nearest files root found
  above :
      {root found : Text}
      → (files.stat root ≡ file) ⊎ (files.stat root ≡ missing)
      → Nearest files (files.dir root) found
      → Nearest files root found

module _ (files : Files) where
  abbrev parent_result : ℕ → Text → Result RootError Text
  parent_result fuel root =
      if text_eq (files.dir root) root
      then err (cannot_watch root)
      else climb files fuel (files.dir root)

  -- filepath.Dir is shorter than its path or, as `/` and `.` are, its own parent.
  abbrev pub IsDir : Type 0
  IsDir =
      (path : Text)
      → (length (files.dir path) < length path) ⊎ (files.dir (files.dir path) ≡ files.dir path)
