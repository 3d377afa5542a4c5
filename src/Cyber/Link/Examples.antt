-- ===== src/Cyber/Link/Examples.antt =====
-- Connections on which the theorems about the threads of src/cyber/cyber.c apply.
use rsmp_gatewa.Common.{
  ◌≡◌, refl, ℕ, ◌-◌, ◌≤◌, ◌<◌, arith, true, false, Option, none, some, List, [], ◌∷◌, ◌++◌, All,
  leb, CStr, codes, if◌then◌else◌, append_ldc, returned,
}
use rsmp_gatewa.Cipher.{Cipher}
use rsmp_gatewa.Coder.Message.{Object}
use rsmp_gatewa.Coder.Secrets.{external, to_encrypt, to_decrypt, ptxt_class, is_prefix, strstr}
use rsmp_gatewa.Coder.Container.{Ptxt}
use rsmp_gatewa.Coder.Container.Open.{Opened, encrypted_decode}
use rsmp_gatewa.Coder.Container.Sample.{
  lib, backend, sent, parse, opening, mate, store_of, no_secret, key, key-derived, carried, at_a,
  at_b, reparsed, decoded_once, original,
}
use rsmp_gatewa.Rsmp.Values.{c_str}
use rsmp_gatewa.Cyber.State.{AuthRef, Queued, Cyber, cyber_set_site_id_local, set_once}
use rsmp_gatewa.Cyber.Reach.{cyber_new, agreed, named_local}
use rsmp_gatewa.Cyber.Link.{
  long_max, Clock, queue_entry, Link, arrived, other_error, Round, auth_of, receive_round,
}
use rsmp_gatewa.Cyber.Link.Tasks.{send_round, Wake, got, gave_up, wait_for_message_external}
use rsmp_gatewa.Cyber.Link.Refines.{link_new, Runs, begun, moved, took_in, called}
use rsmp_gatewa.Cyber.Link.Terminated.{IsTerminated, Runs-IsTerminated}
use rsmp_gatewa.Cyber.Link.Delivery.{with_texts, receive_round-with_texts}
use rsmp_gatewa.Cyber.Link.EndToEnd.{AreLinked, wait_for_message_external-send_round}
use rsmp_gatewa.Cyber.Link.Timeout.{wait_for_message_external_gives_up}

abbrev seconds : ℕ → ℕ → ℕ
seconds a b = if leb b a then a - b else 18446744073709551616 - (b - a)

seconds_later : (a b : ℕ) → b ≤ a → a - b ≤ long_max → seconds a b ≡ a - b
seconds_later a b h k = ground arith

seconds_earlier :
    (a b : ℕ) → a < b → b - a ≤ long_max → seconds a b ≡ 18446744073709551616 - (b - a)
seconds_earlier a b h k = ground arith

abbrev clock : Clock
clock = record { diff = seconds; diff_later = seconds_later; diff_earlier = seconds_earlier }

abbrev cipher : Cipher
cipher = record { lib = lib; enabled = true }

-- The peer of the sample, whose application waits.
abbrev receiver : Cyber
receiver = record (cyber_new (store_of (codes "from") (codes "A"))) {
  cipher = some cipher;
  s_id_local = some (codes "B");
}

abbrev waiting : Link
waiting = record (link_new (store_of (codes "from") (codes "A")) 100) { exchange = receiver }

abbrev queued : Queued
queued = record { payload = original; flag_do_encrypt = true; login = some (codes "a") }

abbrev sender : Cyber
sender = record (cyber_new (store_of (codes "to") (codes "B"))) {
  cipher = some cipher;
  s_id_local = some (codes "A");
  s_id_remote = some (codes "B");
  send_q = queued ∷ [];
}

abbrev no_object : CStr → Option Object
no_object s = none

abbrev round : ℕ → Round
round now = record { arrival = other_error; now = now; opening = opening parse }

abbrev opened : Opened (List Ptxt)
opened =
    encrypted_decode (opening parse) backend append_ldc lib (codes "B") (some []) 9
      (store_of (codes "from") (codes "A"))

abbrev filled : Link
filled =
    with_texts append_ldc (auth_of opened.auth) (sent ∷ [])
      (record waiting { exchange = record receiver { store = opened.store }; last_rxed = 103 })

receive_round-with_texts_example :
    receive_round append_ldc backend clock
      (record { arrival = arrived [] 9; now = 103; opening = opening parse })
      waiting
    ≡ returned filled
receive_round-with_texts_example =
    receive_round-with_texts append_ldc backend clock [] 9 103 (opening parse) waiting cipher
      (codes "B") (sent ∷ []) refl refl refl decoded_once

waiting-Runs : Runs no_object backend append_ldc clock waiting
unfolding cyber_set_site_id_local set_once
waiting-Runs =
    moved
      (moved (begun (store_of (codes "from") (codes "A")) 100) (called _ (agreed (some cipher))))
      (called _ (named_local (codes "B")))

filled-Runs : Runs no_object backend append_ldc clock filled
filled-Runs = moved waiting-Runs (
    took_in (record { arrival = arrived [] 9; now = 103; opening = opening parse })
      (receive_round-with_texts append_ldc backend clock [] 9 103 (opening parse) waiting cipher
        (codes "B") (sent ∷ []) refl refl refl decoded_once))

Runs-IsTerminated_example : All IsTerminated filled.external_q
Runs-IsTerminated_example = Runs-IsTerminated no_object backend append_ldc clock filled filled-Runs

abbrev idle_at : ℕ → Wake
idle_at t = record { queue = []; stop = false; now = t }

wait_for_message_external_gives_up_example :
    wait_for_message_external clock 30 100 (idle_at 100 ∷ idle_at 101 ∷ idle_at 130 ∷ []) ≡ gave_up
wait_for_message_external_gives_up_example =
    wait_for_message_external_gives_up clock 30 100 (idle_at 100 ∷ []) (idle_at 130 ∷ [])
      (idle_at 101) (omega arith) (omega arith) (((refl, refl), refl), tt) (refl, refl)
      (omega arith) (omega arith)

linked :
    AreLinked (opening parse) backend cipher (codes "A") (codes "B") (codes "a") key sender receiver
unfolding c_str
linked = record {
  a_cipher = refl;
  b_cipher = refl;
  a_local = refl;
  a_remote = refl;
  b_local = refl;
  context = refl;
  site_text = refl;
  login_text = refl;
  a = mate (codes "to") (codes "B");
  b = mate (codes "from") (codes "A");
  at_a = at_a;
  at_b = at_b;
  a_active = refl;
  b_active = refl;
  mates = (refl, (refl, refl));
  same_pwd = refl;
  a_coherent = no_secret (codes "to") (codes "B") to_encrypt (codes "A");
  b_coherent = no_secret (codes "from") (codes "A") to_decrypt (codes "B");
  derives = key-derived;
}

of_application : ptxt_class original ≡ returned external
unfolding ptxt_class strstr is_prefix
of_application = refl

wait_for_message_external-send_round_example :
    (request : CStr) × (attrib : Option AuthRef) × (lb' : Link) × ((send_round backend append_ldc
        (codes "u")
        7
        sender).1
      ≡ returned request)
    × (receive_round append_ldc backend clock
          (record { arrival = arrived request 9; now = 103; opening = opening parse })
          waiting
        ≡ returned lb')
    × (wait_for_message_external clock 30 100
          (record { queue = lb'.external_q; stop = lb'.exchange.stop; now = 103 } ∷ [])
        ≡ got (queue_entry (original ++ 0 ∷ []) attrib) [])
wait_for_message_external-send_round_example =
    wait_for_message_external-send_round (opening parse) backend append_ldc clock cipher (codes "A")
      (codes "B") (codes "a") (codes "u") key 7 103 9 original [] sender waiting [] 30 100 linked
      refl refl refl (omega arith) of_application (carried, tt) reparsed
