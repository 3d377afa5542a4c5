-- ===== src/Common/CStrings.antt =====
-- C strings: the list of their characters, without the final NUL, each a number below 256.
-- `strlen` is the length, and `strcmp(s, t) == 0` is `str_eq`.
use Prim.Native.Nat.{ℕ, ◌<◌}
use Prim.Native.Char.{code}
use Prim.Native.String.{String}
use mathlib.Core.Path.{◌≡◌, refl}
use mathlib.Core.Logic.{◌↔◌}
use mathlib.Core.Bool.{Bool, true, false, ◌&&◌, ◌||◌}
use mathlib.Core.List.{List, [], ◌∷◌}
use native.Mathlib.Omega.{arith}
use rsmp_gatewa.Common.Tests.{◌==◌, leb}
use rsmp_gatewa.Common.Lists.{All}

abbrev pub CStr : Type 0
CStr = List ℕ

-- A string literal of the source.
abbrev pub codes : String → CStr
codes String.[] = []
codes (String.◌∷◌ c s) = code c ∷ codes s

unfoldable pub str_eq : CStr → CStr → Bool
str_eq [] [] = true
str_eq [] (b ∷ bs) = false
str_eq (a ∷ as') [] = false
str_eq (a ∷ as') (b ∷ bs) = a == b && str_eq as' bs

pub str_eq_refl : (s : CStr) → str_eq s s ≡ true
unfolding str_eq
str_eq_refl [] = refl
str_eq_refl (a ∷ s) = ground (arith, str_eq_refl s)

pub str_eq→eq : (s t : CStr) → str_eq s t ≡ true → s ≡ t
unfolding str_eq
str_eq→eq [] [] h = refl
str_eq→eq [] (b ∷ t) h = ground arith
str_eq→eq (a ∷ s) [] h = ground arith
str_eq→eq (a ∷ s) (b ∷ t) h = ground (arith, str_eq→eq s t)

pub str_eq_iff : (s t : CStr) → (str_eq s t ≡ true) ↔ (s ≡ t)
str_eq_iff s t = (str_eq→eq s t, λ e. subst_eq e)
  where
    subst_eq : s ≡ t → str_eq s t ≡ true
    subst_eq e = rw e (str_eq_refl t)

-- Whether the characters fit a byte.
abbrev pub IsBytes : CStr → Type 0
IsBytes = All (λ c. c < 256)

-- `isxdigit` of the C library.
unfoldable pub is_xdigit : ℕ → Bool
is_xdigit c = (leb b'0' c && leb c b'9') || (leb b'a' c && leb c b'f') || (leb b'A' c && leb c b'F')

pub str_eq_sym : (s t : CStr) → str_eq s t ≡ str_eq t s
unfolding str_eq
str_eq_sym [] [] = refl
str_eq_sym [] (b ∷ t) = refl
str_eq_sym (a ∷ s) [] = refl
str_eq_sym (a ∷ s) (b ∷ t) = ground (arith, str_eq_sym s t)
