-- ===== src/Cyber/Link/Timeout.antt =====
-- src/cyber/cyber.c: that cyber_receive goes on without a payload, and when
-- waitForMessage_external gives up.
use rsmp_gatewa.Common.{
  ◌≡◌, refl, ℕ, ◌-◌, ◌≤◌, ◌<◌, arith, true, false, List, [], ◌∷◌, ◌++◌, All, ltb,
}
use rsmp_gatewa.Cyber.Link.{long_max, Clock, Link, other_error, Round}
use rsmp_gatewa.Cyber.Link.Tasks.{Wake, gave_up, wait_for_message_external}

abbrev pub IsQuiet : Round → Type 0
IsQuiet r = r.arrival ≡ other_error

-- The queue is empty, and the exchange goes on.
abbrev pub IsIdle : Wake → Type 0
IsIdle w = (w.queue ≡ []) × (w.stop ≡ false)

-- waitForMessage_external with a limit of at least a second, as long as it is: wakes that find no message
-- in the second of the start go on, and the first one behind that second gives up.
pub wait_for_message_external_gives_up :
    (clock : Clock) (to_sec start : ℕ) (ws rest : List Wake) (w : Wake)
    → 0 < to_sec
    → to_sec ≤ long_max
    → All (λ v. IsIdle v × (v.now ≡ start)) ws
    → IsIdle w
    → start < w.now
    → w.now - start ≤ long_max
    → wait_for_message_external clock to_sec start (ws ++ w ∷ rest) ≡ gave_up
unfolding wait_for_message_external
wait_for_message_external_gives_up clock to_sec start [] rest w limited bounded idles idle later
      near =
    let ends : ltb (18446744073709551616 - (w.now - start)) to_sec ≡ false = ground arith in
    rw (idle.0, idle.1) (rw (clock.diff_earlier start w.now later near) (rw ends refl))
wait_for_message_external_gives_up clock to_sec start (v ∷ ws) rest w limited bounded
      (((empty, running), same), idles) idle later near =
    let goes_on : ltb (start - start) to_sec ≡ true = ground arith in
    rw (empty, running)
      (rw same (
        rw (clock.diff_later start start (omega arith) (omega arith)) (
          rw goes_on (
            wait_for_message_external_gives_up clock to_sec start ws rest w limited bounded idles
              idle later near))))
