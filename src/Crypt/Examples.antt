-- ===== src/Crypt/Examples.antt =====
-- Inputs on which the theorems about src/crypt apply, and runs of its functions.
use rsmp_gatewa.Common.{is_xdigit, ◌≡◌, refl, some, codes, returned}
use rsmp_gatewa.Crypt.Bcd.{a2c, pack, c2a, bcd_encode_sep, bcd_decode}
use rsmp_gatewa.Crypt.Base64.{
  index_of, padding, decoded_length, decode_cells, place, char_of, base64_encode, base64_decode,
}

encode_plain : bcd_encode_sep (some (codes "Oh")) 0 ≡ some (codes "4F68")
unfolding bcd_encode_sep c2a
encode_plain = refl

encode_colons : bcd_encode_sep (some (codes "Oh!")) b':' ≡ some (codes "4F:68:21")
unfolding bcd_encode_sep is_xdigit c2a
encode_colons = refl

decode_lower : bcd_decode (some (codes "4f-68")) ≡ returned (codes "Oh")
unfolding bcd_decode is_xdigit pack a2c
decode_lower = refl

encode_text : base64_encode (codes "RSMP!") ≡ codes "UlNNUCE="
unfolding base64_encode char_of
encode_text = refl

decode_text : base64_decode (codes "UlNNUCE=") ≡ returned (codes "RSMP!")
unfolding base64_decode place decode_cells decoded_length padding index_of
decode_text = refl
