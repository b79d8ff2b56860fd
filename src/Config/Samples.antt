-- ===== src/Config/Samples.antt =====
-- Globs at concrete paths, and the instance of the theorem.
pub mod Searches
pub mod Modes
pub mod Apps
use ooth.Prelude.{◌≡◌, ◌↔◌, refl, true, false}
use ooth.Prelude.Texts.{Text, codes, text_eq, split, split_parts}
use ooth.Config.Glob.{some_suffix, match_one, match_elements, match_glob}
use ooth.Config.Glob.Meaning.{Names, match_glob-Names}

abbrev as_it_is : Text → Text
as_it_is path = path

deep_glob : match_glob text_eq as_it_is (codes "a/**/d") (codes "a/b/c/d") ≡ true
unfolding match_glob match_elements some_suffix match_one split split_parts
deep_glob = refl

other_end : match_glob text_eq as_it_is (codes "a/**/d") (codes "a/b/c") ≡ false
unfolding match_glob match_elements some_suffix match_one split split_parts
other_end = refl

match_glob-Names_example :
    (match_glob text_eq as_it_is (codes "a/**/d") (codes "a/b/c/d") ≡ true)
    ↔ Names text_eq (split b'/' (codes "a/**/d")) (split b'/' (codes "a/b/c/d"))
match_glob-Names_example = match_glob-Names text_eq as_it_is (codes "a/**/d") (codes "a/b/c/d")
