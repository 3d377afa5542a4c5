-- ===== src/Transport/Examples.antt =====
-- The theorems about src/transport at concrete inputs.
use rsmp_gatewa.Common.{◌≡◌, some, [], ◌∷◌, arith, codes, length}
use rsmp_gatewa.Transport.{lost, ends_payload}
use rsmp_gatewa.Transport.Framing.{fed, send_all, receive_all, receive_all-send_all}

receive_all-send_all_example :
    receive_all 2
      (fed (send_all (λ s. some (length s)) (codes "{}" ∷ codes "[1]" ∷ [])) (lost ∷ []))
    ≡ codes "{}" ∷ codes "[1]" ∷ []
unfolding ends_payload
receive_all-send_all_example =
    receive_all-send_all (λ s. some (length s)) (codes "{}" ∷ codes "[1]" ∷ []) (lost ∷ [])
      (ground arith)
