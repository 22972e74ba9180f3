-- ===== src/Protocol/Decimal.antt =====
-- How Rust's `write!("{value}")` prints an unsigned number: its decimal digits. (core::fmt is the
-- language's; the statements and contexts of crates/slink-protocol are made with it.)
use session_link.Common.{
  ℕ, zero, suc, ◌+◌, ◌/◌, ◌%◌, [], ◌∷◌, Text, codes, ltb, if◌then◌else◌, ◌≡◌, refl,
}

-- The digits of `n`, last first, on fuel: `n + 1` rounds are always enough, for each round divides
-- by ten.
digits : ℕ → ℕ → Text → Text
digits zero n out = out
digits (suc fuel) n out =
    let rest = digits fuel (n / 10) ((b'0' + n % 10) ∷ out) in
    if ltb n 10 then (b'0' + n) ∷ out else rest

unfoldable pub print : ℕ → Text
unfolding digits
print n = digits (n + 1) n []

print_runs : print 9007199254740991 ≡ codes "9007199254740991"
unfolding print
print_runs = refl
