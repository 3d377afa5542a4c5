-- ===== src/Sync/Examples.antt =====
-- Lists and queues on which the theorems about src/sync apply.
use rsmp_gatewa.Common.{
  ◌≡◌, refl, ℕ, zero, suc, ◌==◌, Bool, true, Option, none, some, [], ◌∷◌, arith, append_ldc,
}
use rsmp_gatewa.Sync.Counted.{Counted}
use rsmp_gatewa.Sync.Queue.{Semaphore, Msg, Queue}
use rsmp_gatewa.Sync.Queue.Signal.{PullsFirst, pull-PullsFirst}

abbrev two : Counted ℕ
two = record { items = 5 ∷ 7 ∷ []; no = 2 }

abbrev is_seven : ℕ → Bool
is_seven n = n == 7

abbrev keep_or_six : Option ℕ → Option ℕ
keep_or_six none = some 6
keep_or_six (some n) = some (suc n)

abbrev wait_count : ℕ → Option ℕ
wait_count zero = none
wait_count (suc n) = some n

wait_count-zero : (n : ℕ) → n ≡ 0 → wait_count n ≡ none
wait_count-zero n h = rw h refl

wait_count-suc : (n k : ℕ) → n ≡ suc k → (t : ℕ) × ((wait_count n ≡ some t) × (t ≡ k))
wait_count-suc n k h = (k, (rw h refl, refl))

-- A semaphore that is its number.
abbrev counter : Semaphore
counter = record {
  Sem = ℕ;
  new = 0;
  count = λ n. n;
  wait = wait_count;
  signal = suc;
  flush = λ n. 0;
  count-new = refl;
  count-signal = λ n. refl;
  count-flush = λ n. refl;
  wait_zero = wait_count-zero;
  wait_suc = wait_count-suc;
}

abbrev message : Msg
message = record {
  buf = some (1 ∷ 2 ∷ []);
  length = 2;
  prio = 0;
  flag_do_encrypt = true;
  mark = 0;
  attrib = 0;
}

abbrev empty : Queue counter
empty = record {
  signals = 0;
  list = record { items = []; no = 0 };
  unused = record { items = []; no = 0 };
}

abbrev one : Queue counter
one = record empty { signals = 1; list = record { items = message ∷ []; no = 1 } }

pull-PullsFirst_example : PullsFirst counter append_ldc (message ∷ []) one
pull-PullsFirst_example =
    pull-PullsFirst counter append_ldc one (message ∷ []) (omega arith) refl (refl, (refl, refl))
