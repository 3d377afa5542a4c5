-- ===== src/Rsmp/Versions/Examples.antt =====
-- The theorems about the comparison of versions at concrete lists.
use rsmp_gatewa.Common.{◌≡◌, some, List, [], ◌∷◌, CStr, codes, fault}
use rsmp_gatewa.Rsmp.Versions.{Sxlg, e_sxlgs_check}
use rsmp_gatewa.Rsmp.Versions.Agree.{e_sxlgs_check_lem}

abbrev versions : List CStr
versions = codes "3.1.4" ∷ codes "3.2.0" ∷ []

abbrev general : Sxlg
general = record { vers = some (codes "1.0"); sg = 0 }

e_sxlgs_check_lem_example : e_sxlgs_check (some (general ∷ [])) (some (general ∷ [])) ≡ fault
e_sxlgs_check_lem_example = e_sxlgs_check_lem general general [] []
