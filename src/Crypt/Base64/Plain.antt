-- ===== src/Crypt/Base64/Plain.antt =====
-- src/crypt/base64.c: a text in base64 is a C string.
use rsmp_gatewa.Common.{
  ◌≡◌, refl, ap, ℕ, ◌+◌, ◌<◌, ◌/◌, ◌%◌, ◌*◌, arith, true, false, not, List, [], ◌∷◌, ◌==◌,
  all_below, all_below_sound, CStr, IsBytes,
}
use rsmp_gatewa.Crypt.Base64.{char_of, base64_encode}
use rsmp_gatewa.Rsmp.Values.{c_str}

char_table : all_below 64 (λ k. not (char_of k == 0)) ≡ true
unfolding all_below char_of
char_table = refl

char_of-ne-zero : (k : ℕ) → k < 64 → (char_of k == 0) ≡ false
char_of-ne-zero k h = ground (arith, all_below_sound 64 (λ k. not (char_of k == 0)) k char_table h)

c_str_char : (k : ℕ) (cs : CStr) → k < 64 → c_str cs ≡ cs → c_str (char_of k ∷ cs) ≡ char_of k ∷ cs
unfolding c_str
c_str_char k cs h e = rw (char_of-ne-zero k h, e) refl

c_str_end : (cs : CStr) → c_str cs ≡ cs → c_str (b'=' ∷ cs) ≡ b'=' ∷ cs
unfolding c_str
c_str_end cs e = ap (λ r. b'=' ∷ r) e

-- A text in base64 has no NUL.
pub c_str-base64_encode : (xs : List ℕ) → IsBytes xs → c_str (base64_encode xs) ≡ base64_encode xs
unfolding base64_encode
c_str-base64_encode [] h = unfold c_str in refl
c_str-base64_encode (a ∷ []) h =
    c_str_char (a / 4) _ (omega (arith, h.0))
      (c_str_char (a % 4 * 16) _ (omega arith) (c_str_end _ (c_str_end [] (unfold c_str in refl))))
c_str-base64_encode (a ∷ b ∷ []) h = c_str_char (a / 4) _ (omega (arith, h.0)) (
    c_str_char (a % 4 * 16 + b / 16) _ (omega (arith, h.1.0))
      (c_str_char (b % 16 * 4) _ (omega arith) (c_str_end [] (unfold c_str in refl))))
c_str-base64_encode (a ∷ b ∷ c ∷ xs) h = c_str_char (a / 4) _ (omega (arith, h.0)) (
    c_str_char (a % 4 * 16 + b / 16) _ (omega (arith, h.1.0)) (
      c_str_char (b % 16 * 4 + c / 64) _ (omega (arith, h.1.1.0))
        (c_str_char (c % 64) _ (omega arith) (c_str-base64_encode xs h.1.1.1))))
