-- ===== src/Config/Samples/Modes.antt =====
-- Permissions at concrete texts and modes.
use ooth.Prelude.{◌≡◌, refl, some, none, arith, ◌==◌, ◌||◌}
use ooth.Prelude.Texts.{codes, split, split_parts}
use ooth.Prelude.Bits.{has_bit, and_not}
use ooth.Config.Permissions.{
  parse_permissions, parse_octal, octal_value, in_uint32, trim_prefix, apply_clauses, apply_clause,
  apply_words, apply_operator, gather, who_bits, permission_bits, cut_clause, text, marshal_mode,
  unmarshal_mode,
}
use ooth.Config.Permissions.Octal.{unmarshal_mode-marshal_mode}
use ooth.Config.Permissions.Symbolic.{bit_after_all, parse_permissions-bit_after_all}

unmarshal_mode-marshal_mode_example : unmarshal_mode (text (marshal_mode 0o644)) ≡ some 0o644
unmarshal_mode-marshal_mode_example = unmarshal_mode-marshal_mode 0o644 (omega arith)

no_octal : parse_octal (trim_prefix (codes "g=r,o+x")) ≡ none
unfolding parse_octal trim_prefix octal_value in_uint32
no_octal = refl

symbolic : parse_permissions (codes "g=r,o+x") ≡ some 0o641
unfolding parse_permissions parse_octal trim_prefix octal_value in_uint32 apply_clauses apply_clause
    apply_words apply_operator gather who_bits permission_bits cut_clause split split_parts and_not
symbolic = refl

parse_permissions-bit_after_all_example :
    has_bit 0o641 4
    ≡ bit_after_all (split b',' (codes "g=r,o+x")) 4 (4 == 4 || 4 == 5 || 4 == 7 || 4 == 8)
parse_permissions-bit_after_all_example =
    parse_permissions-bit_after_all (codes "g=r,o+x") 4 no_octal symbolic
