-- ===== src/Sync/Queue.antt =====
-- src/sync/queue.c: the messages that one thread pushes and another pulls, in a counted list, with a
-- semaphore and a list of entries to use again. The semaphore, of a submodule, is the parameter
-- `Semaphore`. A buffer that is cloned holds at least as many bytes as the length says; allocation never
-- fails.
pub mod Signal
use rsmp_gatewa.Common.{
  ◌≡◌, ℕ, suc, ◌-◌, Bool, true, Option, none, some, List, [], ◌∷◌, take, ◌==◌, if◌then◌else◌, Ldc,
}
use rsmp_gatewa.Sync.Counted.{
  Counted, ldc_mutex_initialize, ldc_mutex_insert, ldc_mutex_extract, ldc_mutex_no,
}

-- A counting semaphore; a wait that times out is `none`.
pub record Semaphore : Type 1 where
  pub Sem : Type 0
  pub new : Sem
  pub count : Sem → ℕ
  pub wait : Sem → Option Sem
  pub signal : Sem → Sem
  pub flush : Sem → Sem
  pub count-new : count new ≡ 0
  pub count-signal : (s : Sem) → count (signal s) ≡ suc (count s)
  pub count-flush : (s : Sem) → count (flush s) ≡ 0
  pub wait_zero : (s : Sem) → count s ≡ 0 → wait s ≡ none
  pub wait_suc :
      (s : Sem) (n : ℕ) → count s ≡ suc n → (t : Sem) × ((wait s ≡ some t) × (count t ≡ n))

-- queue_msg_t; marks and attributes are opaque pointers.
pub record Msg : Type 0 where
  pub buf : Option (List ℕ)
  pub length : ℕ
  pub prio : ℕ
  pub flag_do_encrypt : Bool
  pub mark : ℕ
  pub attrib : ℕ

-- The buffer of a new entry.
unfoldable pub entry_buf : Option (List ℕ) → ℕ → Bool → Option (List ℕ)
entry_buf none n clone = none
entry_buf (some bs) n clone = if n == 0 then none else if clone then some (take n bs) else some bs

module _ (ldc : Ldc) where
  -- The entry, and the unused entries.
  unfoldable pub queue_msg_new : Msg → Bool → Counted Msg → Msg × Counted Msg
  queue_msg_new msg clone unused =
      (record msg { buf = entry_buf msg.buf msg.length clone }, (ldc_mutex_extract unused).0)

  -- The attribute stays in the entry.
  unfoldable pub queue_msg_recycle : Msg → Counted Msg → Counted Msg
  queue_msg_recycle item unused =
      ldc_mutex_insert ldc
        (record item { buf = none; length = 0; flag_do_encrypt = true; prio = 0; mark = 0 }) unused

  unfoldable pub recycle_all : List Msg → Counted Msg → Counted Msg
  recycle_all [] unused = unused
  recycle_all (item ∷ items) unused = recycle_all items (queue_msg_recycle item unused)

module _ (sem : Semaphore) where
  -- A queue, with the unused entries, which all queues share.
  pub record Queue : Type 0 where
    pub signals : sem.Sem
    pub list : Counted Msg
    pub unused : Counted Msg

  unfoldable pub queue_new : Counted Msg → Queue
  queue_new unused = record { signals = sem.new; list = ldc_mutex_initialize; unused = unused }

  unfoldable pub no : Queue → ℕ
  no q = ldc_mutex_no q.list

  unfoldable pub push : Ldc → Msg → Bool → Queue → Queue
  push ldc msg clone q =
      let (item, unused) = queue_msg_new ldc msg clone q.unused in
      record {
        signals = sem.signal q.signals;
        list = ldc_mutex_insert ldc item q.list;
        unused = unused;
      }

  unfoldable pub pull_entry : Ldc → sem.Sem → Counted Msg × Option Msg → Queue → Queue × Option Msg
  pull_entry ldc s (list, none) q = (record q { signals = s; list = list }, none)
  pull_entry ldc s (list, some item) q =
      (record { signals = s; list = list; unused = queue_msg_recycle ldc item q.unused }, some item)

  unfoldable pub pull_signalled : Ldc → Option sem.Sem → Queue → Queue × Option Msg
  pull_signalled ldc none q = (q, none)
  pull_signalled ldc (some s) q = pull_entry ldc s (ldc_mutex_extract q.list) q

  -- The message that __pull gives, none for its result -1.
  unfoldable pub pull : Ldc → Queue → Queue × Option Msg
  pull ldc q = pull_signalled ldc (sem.wait q.signals) q

  -- The number of messages that are dropped.
  unfoldable pub flush : Ldc → Queue → Queue × ℕ
  flush ldc q = (
    record {
      signals = sem.flush q.signals;
      list = record { items = []; no = 0 };
      unused = recycle_all ldc q.list.items q.unused;
    },
    q.list.no,
  )
