-- ===== src/Sync/Queue/Signal.antt =====
-- src/sync/queue.c: the semaphore counts the messages in the list, so that a pull never waits on a
-- message that is there and never finds the list empty after its wait.
use rsmp_gatewa.Common.{
  ◌≡◌, refl, sym, ap, ◌∙◌, suc, ◌+◌, ◌<◌, Bool, none, some, List, [], ◌∷◌, arith, length, Ldc,
}
use rsmp_gatewa.Sync.Counted.{
  Counted, size_values, size_pred, ldc_mutex_insert, extract_from, ldc_mutex_extract,
}
use rsmp_gatewa.Sync.Counted.Number.{
  IsCounted, length-insert, ldc_mutex_insert-IsCounted, ldc_mutex_extract-IsCounted, size_pred-suc,
}
use rsmp_gatewa.Sync.Queue.{
  Semaphore, Msg, queue_msg_new, queue_msg_recycle, recycle_all, Queue, push, pull_entry,
  pull_signalled, pull, flush,
}

module _ (sem : Semaphore) (ldc : Ldc) where
  abbrev pub IsSynced : Queue sem → Type 0
  IsSynced q = (sem.count q.signals ≡ length q.list.items) × (IsCounted q.list × IsCounted q.unused)

  recycle-IsCounted :
      (item : Msg) (unused : Counted Msg)
      → suc (length unused.items) < size_values
      → IsCounted unused
      → IsCounted (queue_msg_recycle ldc item unused)
  unfolding queue_msg_recycle
  recycle-IsCounted item unused room h = ldc_mutex_insert-IsCounted ldc _ unused room h

  -- A push leaves the semaphore at the number of the messages, where it was there before and one more
  -- message can be counted.
  pub push-IsSynced :
      (q : Queue sem) (msg : Msg) (clone : Bool)
      → suc (length q.list.items) < size_values
      → IsSynced q
      → IsSynced (push sem ldc msg clone q)
  unfolding push queue_msg_new ldc_mutex_insert
  push-IsSynced q msg clone room (count, (counted, unused)) = (
    sem.count-signal q.signals ∙ ap suc count ∙ sym (length-insert ldc _ q.list.items),
    (
      unfold ldc_mutex_insert in ldc_mutex_insert-IsCounted ldc _ q.list room counted,
      ldc_mutex_extract-IsCounted q.unused unused,
    ),
  )

  -- What a pull does, by the messages of the queue.
  abbrev pub PullsFirst : List Msg → Queue sem → Type 0
  PullsFirst [] q = pull sem ldc q ≡ (q, none)
  PullsFirst (a ∷ rest) q =
      ((pull sem ldc q).1 ≡ some a)
      × (((pull sem ldc q).0.list.items ≡ rest) × IsSynced (pull sem ldc q).0)

  pull-empty : (q : Queue sem) → sem.count q.signals ≡ 0 → pull sem ldc q ≡ (q, none)
  unfolding pull pull_signalled
  pull-empty q h = ap (λ o. pull_signalled sem ldc o q) (sem.wait_zero q.signals h)

  extracted :
      (l : Counted Msg) (a : Msg) (rest : List Msg)
      → l.items ≡ a ∷ rest
      → ldc_mutex_extract l ≡ (record { items = rest; no = size_pred l.no }, some a)
  unfolding ldc_mutex_extract
  extracted l a rest e = ap (λ items. extract_from items l) e

  pull-full :
      (q : Queue sem) (s : sem.Sem) (a : Msg) (rest : List Msg)
      → sem.wait q.signals ≡ some s
      → q.list.items ≡ a ∷ rest
      → pull sem ldc q ≡ (
        record {
          signals = s;
          list = record { items = rest; no = size_pred q.list.no };
          unused = queue_msg_recycle ldc a q.unused;
        },
        some a,
      )
  unfolding pull pull_signalled pull_entry
  pull-full q s a rest waited e =
      ap (λ o. pull_signalled sem ldc o q) waited
      ∙ ap (λ x. pull_entry sem ldc s x q) (extracted q.list a rest e)

  -- In a queue whose semaphore is at the number of the messages, a pull with no message gives none and
  -- changes nothing; with messages it gives the first one and leaves the others, in order, with the
  -- semaphore at their number. One more unused entry can be counted.
  pub pull-PullsFirst :
      (q : Queue sem) (items : List Msg)
      → suc (length q.unused.items) < size_values
      → q.list.items ≡ items
      → IsSynced q
      → PullsFirst items q
  pull-PullsFirst q [] room e (count, h) = pull-empty q (count ∙ ap length e)
  pull-PullsFirst q (a ∷ rest) room e (count, (counted, unused)) =
      let (s, (waited, left)) = sem.wait_suc q.signals (length rest) (count ∙ ap length e) in
      rw (pull-full q s a rest waited e) (
        refl,
        (
          refl,
          (
            left,
            (
              size_pred-suc q.list.no (length rest) (counted ∙ ap length e),
              recycle-IsCounted a q.unused room unused,
            ),
          ),
        ),
      )

  length-recycle :
      (a : Msg) (unused : Counted Msg)
      → length (queue_msg_recycle ldc a unused).items ≡ suc (length unused.items)
  unfolding queue_msg_recycle ldc_mutex_insert
  length-recycle a unused = length-insert ldc _ unused.items

  recycle_all-IsCounted :
      (items : List Msg) (unused : Counted Msg)
      → length items + length unused.items < size_values
      → IsCounted unused
      → IsCounted (recycle_all ldc items unused)
  unfolding recycle_all
  recycle_all-IsCounted [] unused room h = h
  recycle_all-IsCounted (a ∷ items) unused room h =
      recycle_all-IsCounted items (queue_msg_recycle ldc a unused)
        (omega (arith, length-recycle a unused, room))
        (recycle-IsCounted a unused (omega (arith, room)) h)

  -- In a queue whose semaphore is at the number of the messages, a flush gives that number and leaves
  -- none, with the semaphore at zero. All entries together can be counted.
  pub flush-IsSynced :
      (q : Queue sem)
      → length q.list.items + length q.unused.items < size_values
      → IsSynced q
      → ((flush sem ldc q).1 ≡ length q.list.items)
        × (((flush sem ldc q).0.list.items ≡ []) × IsSynced (flush sem ldc q).0)
  unfolding flush
  flush-IsSynced q room (count, (counted, unused)) = (
    counted,
    (
      refl,
      (sem.count-flush q.signals, (refl, recycle_all-IsCounted q.list.items q.unused room unused)),
    ),
  )
