-- ===== src/Rsmp/Arrays/Examples.antt =====
-- The theorems about src/rsmp/vars/array.h at concrete inputs.
use rsmp_gatewa.Common.{ℕ, false, List}
use rsmp_gatewa.Rsmp.Arrays.{Array}

abbrev plain : List ℕ → Array ℕ
plain xs = record { items = xs; has_free = false }
