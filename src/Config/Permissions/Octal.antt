-- ===== src/Config/Permissions/Octal.antt =====
-- The YAML form of a mode is read back as the mode.
use ooth.Prelude.{
  ℕ, zero, suc, ◌≤◌, ◌<◌, ◌≡◌, refl, Bool, true, false, ◌&&◌, Option, none, some, ◌==◌, ==_iff,
  arith,
}
use ooth.Config.Permissions.{
  text, unmarshal_mode, raw_mode, parse_permissions, parse_octal, trim_prefix, in_uint32,
  octal_value, marshal_mode, octal_digits, zeros,
}

-- Evaluated at every number below a bound.
every : (ℕ → Bool) → ℕ → Bool
every test zero = true
every test (suc n) = every test n && test n

every-true : (test : ℕ → Bool) (n k : ℕ) → every test n ≡ true → k < n → test k ≡ true
unfolding every
every-true test zero k h g = absurd (omega arith)
every-true test (suc n) k h g = ground (arith, every-true test n k)

is_just : ℕ → Option ℕ → Bool
is_just n none = false
is_just n (some k) = k == n

is_just-some : (n : ℕ) (o : Option ℕ) → is_just n o ≡ true → o ≡ some n
unfolding is_just
is_just-some n none h = cc
is_just-some n (some k) h = let same : k ≡ n = (==_iff k n).0 h in rw same refl

reads_back : ℕ → Bool
unfolding is_just
reads_back mode = is_just mode (unmarshal_mode (text (marshal_mode mode)))

all_read_back : every reads_back 512 ≡ true
unfolding every reads_back unmarshal_mode raw_mode parse_permissions parse_octal trim_prefix
    in_uint32 octal_value marshal_mode octal_digits zeros
all_read_back = refl

-- Every mode of permission bits, written as YAML text, is read as the same mode.
pub unmarshal_mode-marshal_mode :
    (mode : ℕ) → mode ≤ 0o777 → unmarshal_mode (text (marshal_mode mode)) ≡ some mode
unfolding reads_back
unmarshal_mode-marshal_mode mode h =
    is_just-some mode (unmarshal_mode (text (marshal_mode mode)))
      (every-true reads_back 512 mode all_read_back (omega (arith, h)))
