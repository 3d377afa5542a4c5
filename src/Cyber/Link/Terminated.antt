-- ===== src/Cyber/Link/Terminated.antt =====
-- src/cyber/cyber.c: the messages that the threads put in the queue for the application.
use rsmp_gatewa.Common.{
  returned_inj, ◌≡◌, refl, ap, subst, ℕ, suc, ◌+◌, arith, true, false, Option, none, some, List, [],
  ◌∷◌, ◌++◌, length, length-append, take-length, All, All-append, CStr, Ldc, returned,
}
use rsmp_gatewa.Coder.Message.{Object}
use rsmp_gatewa.Coder.Secrets.{Backend, Class, internal, external}
use rsmp_gatewa.Cyber.State.{AuthRef}
use rsmp_gatewa.Cyber.Link.{Clock, Pending, queue_entry, Link, stop_link, push_ptxt}
use rsmp_gatewa.Sync.Queue.{entry_buf}
use rsmp_gatewa.Cyber.Link.Kept.{IsKept, receive_round-kept}
use rsmp_gatewa.Cyber.Link.Kept.Inside.{internal_round-same}
use rsmp_gatewa.Cyber.Link.Refines.{
  Move, took_in, handled, transmitted, delivered, called, Runs, begun, moved,
}
use rsmp_gatewa.Common.{◌==◌}

-- A message for the application: the bytes of a text and its NUL, and their count.
abbrev pub IsTerminated : Pending → Type 0
IsTerminated p = (s : CStr) × (p.buf ≡ some (s ++ 0 ∷ [])) × (p.len ≡ length s + 1)

All-split : (P : Pending → Type 0) (xs ys : List Pending) → All P (xs ++ ys) → All P xs × All P ys
All-split P [] ys h = (tt, h)
All-split P (x ∷ xs) ys h = let (left, right) = All-split P xs ys h.1 in ((h.0, left), right)

insert-All :
    (ldc : Ldc) (P : Pending → Type 0) (p : Pending) (ps : List Pending)
    → P p
    → All P ps
    → All P (ldc.insert p ps)
insert-All ldc P p ps h hs =
    let (pre, post, split, inserted) = ldc.insert_splits p ps in
    let (left, right) = All-split P pre post (subst (All P) split hs) in
    rw inserted (All-append P pre (p ∷ post) left (h, right))

entry_buf_all : (s : CStr) (n : ℕ) → length s ≡ suc n → entry_buf (some s) (length s) true ≡ some s
unfolding entry_buf
entry_buf_all s n e =
    let full : (length s == 0) ≡ false = ground arith in rw full (ap some (take-length s))

queue_entry-IsTerminated :
    (s : CStr) (attrib : Option AuthRef) → IsTerminated (queue_entry (s ++ 0 ∷ []) attrib)
unfolding queue_entry
queue_entry-IsTerminated s attrib =
    (s, entry_buf_all (s ++ 0 ∷ []) (length s) (length_one s), length-append s (0 ∷ []))
  where
    length_one : (s : CStr) → length (s ++ 0 ∷ []) ≡ suc (length s)
    length_one s = omega (arith, length-append s (0 ∷ []))

push_ptxt-IsTerminated :
    (ldc : Ldc) (c : Option Class) (o : Option CStr) (attrib : Option AuthRef) (l l' : Link)
    → All IsTerminated l.external_q
    → push_ptxt ldc c o attrib l ≡ returned l'
    → All IsTerminated l'.external_q
unfolding push_ptxt
push_ptxt-IsTerminated ldc none o attrib l l' h e =
    subst (λ m. All IsTerminated m.external_q) (returned_inj _ l' e) h
push_ptxt-IsTerminated ldc (some c) none attrib l l' h e = cc e
push_ptxt-IsTerminated ldc (some internal) (some s) attrib l l' h e =
    subst (λ m. All IsTerminated m.external_q) (returned_inj _ l' e) h
push_ptxt-IsTerminated ldc (some external) (some s) attrib l l' h e =
    subst (λ m. All IsTerminated m.external_q) (returned_inj _ l' e)
      (insert-All ldc IsTerminated _ l.external_q (queue_entry-IsTerminated s attrib) h)

external-IsKept : (ldc : Ldc) → IsKept ldc (λ l. All IsTerminated l.external_q)
unfolding stop_link
external-IsKept ldc = record {
  stops = λ l h. h;
  clocks = λ l t h. h;
  stores = λ l s h. h;
  pushes = push_ptxt-IsTerminated ldc;
}

module _ (parse : CStr → Option Object) (backend : Backend) (ldc : Ldc) (clock : Clock) where
  Move-IsTerminated :
      {l l' : Link}
      → Move parse backend ldc clock l l'
      → All IsTerminated l.external_q
      → All IsTerminated l'.external_q
  Move-IsTerminated {l} {l'} (took_in r e) h =
      receive_round-kept ldc (λ m. All IsTerminated m.external_q) (external-IsKept ldc) backend
        clock r l l' h e
  Move-IsTerminated {l} {l'} (handled inp next e) h =
      subst (All IsTerminated)
        (internal_round-same parse backend ldc (λ m. m.external_q) (λ m cy q. refl) inp next l l' e)
        h
  Move-IsTerminated (transmitted uuid now) h = h
  Move-IsTerminated (delivered p ps e) h = (subst (All IsTerminated) e h).1
  Move-IsTerminated (called cy step) h = h

  -- Whatever the threads of a new connection do, in any order, every message in the queue for the
  -- application is the bytes of a text with the NUL at its end, and its length counts them.
  pub Runs-IsTerminated :
      (l : Link) → Runs parse backend ldc clock l → All IsTerminated l.external_q
  Runs-IsTerminated l (begun st now) = tt
  Runs-IsTerminated l (moved r m) = Move-IsTerminated m (Runs-IsTerminated _ r)
