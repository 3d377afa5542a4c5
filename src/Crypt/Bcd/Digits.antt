-- ===== src/Crypt/Bcd/Digits.antt =====
-- One byte of src/crypt/bcd.c: what `c2a`, `a2c` and the packing of two digits do.
use rsmp_gatewa.Common.{
  ℕ, ◌/◌, ◌%◌, ◌<◌, ◌≡◌, refl, arith, ◌==◌, ==_iff, all_below, all_below_sound, is_xdigit, true,
}
use rsmp_gatewa.Crypt.Bcd.{c2a, a2c, pack}

pub is_xdigit-c2a : (b : ℕ) → is_xdigit (c2a b) ≡ true
unfolding is_xdigit c2a
is_xdigit-c2a b = ground arith

pack_table : all_below 256 (λ b. pack (c2a (b / 16)) (c2a (b % 16)) == b) ≡ true
unfolding all_below pack c2a a2c
pack_table = refl

pub pack-c2a : (b : ℕ) → b < 256 → pack (c2a (b / 16)) (c2a (b % 16)) ≡ b
pack-c2a b h = (==_iff _ b).0 (all_below_sound 256 _ b pack_table h)
