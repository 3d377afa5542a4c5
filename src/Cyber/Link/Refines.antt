-- ===== src/Cyber/Link/Refines.antt =====
-- The threads of a connection of src/cyber/cyber.c, one round at a time in any order beside the calls of
-- the application: what they do to the exchange, and what is in the queue for the application.
use rsmp_gatewa.Common.{
  returned_inj, ◌≡◌, ap, subst, ℕ, Option, none, some, List, [], ◌∷◌, CStr, Ldc, Outcome, returned,
  failed, fault, require, ◌>>=◌, >>=-eq-returned,
}
use rsmp_gatewa.Auth.Store.{Store}
use rsmp_gatewa.Coder.Message.{Object, Message, deserialize_message}
use rsmp_gatewa.Coder.Secrets.{Backend, Class, internal, external}
use rsmp_gatewa.Cyber.State.{AuthRef, Queued, Cyber, Code, ok, error, crashed}
use rsmp_gatewa.Cyber.Challenge.{Inputs, initiate_challenge}
use rsmp_gatewa.Cyber.Reach.{
  cyber_new, Returns, Step, processed, initiated, stopped, taken, stored, Reach, created, stepped,
}
use rsmp_gatewa.Cyber.Link.{Clock, Pending, Link, Round, stop_link, push_ptxt, receive_round}
use rsmp_gatewa.Cyber.Link.Tasks.{
  state_of, process_read, process_pending, pull_internal, internal_round, written_payload,
  send_first, send_round,
}
use rsmp_gatewa.Cyber.Link.Kept.{IsKept, receive_round-kept}

-- cyber_new_from_transport, with queues that are empty
abbrev pub link_new : Store → ℕ → Link
link_new st now = record {
  exchange = cyber_new st;
  internal_q = [];
  external_q = [];
  last_rxed = now;
  to_sec = 0;
}

module _ (parse : CStr → Option Object) (backend : Backend) (ldc : Ldc) (clock : Clock) where
  pub data Move (l : Link) : Link → Type 0 where
    took_in :
        (r : Round) {l' : Link} → receive_round ldc backend clock r l ≡ returned l' → Move l l'
    handled :
        (inp next : Inputs) {l' : Link}
        → internal_round parse backend ldc inp next l ≡ returned l'
        → Move l l'
    transmitted :
        (uuid : CStr) (now : ℕ)
        → Move l (record l { exchange = (send_round backend ldc uuid now l.exchange).0 })
    delivered :
        (p : Pending) (ps : List Pending)
        → l.external_q ≡ p ∷ ps
        → Move l (record l { external_q = ps })
    called : (cy : Cyber) → Step backend ldc l.exchange cy → Move l (record l { exchange = cy })

  pub data Runs : Link → Type 0 where
    begun : (st : Store) (now : ℕ) → Runs (link_new st now)
    moved : {l l' : Link} → Runs l → Move l l' → Runs l'

push_ptxt-exchange :
    (ldc : Ldc) (c : Option Class) (o : Option CStr) (attrib : Option AuthRef) (l l' : Link)
    → push_ptxt ldc c o attrib l ≡ returned l'
    → l.exchange ≡ l'.exchange
unfolding push_ptxt
push_ptxt-exchange ldc none o attrib l l' e = ap (λ m. m.exchange) (returned_inj _ l' e)
push_ptxt-exchange ldc (some c) none attrib l l' e = cc e
push_ptxt-exchange ldc (some internal) (some s) attrib l l' e =
    ap (λ m. m.exchange) (returned_inj _ l' e)
push_ptxt-exchange ldc (some external) (some s) attrib l l' e =
    ap (λ m. m.exchange) (returned_inj _ l' e)

state_of-Returns : (r : Cyber × Code) (cy : Cyber) → state_of r ≡ returned cy → Returns r cy
unfolding state_of
state_of-Returns (x, ok) cy h = returned_inj x cy h
state_of-Returns (x, error) cy h = returned_inj x cy h
state_of-Returns (x, crashed) cy h = cc h

module _ (parse : CStr → Option Object) (backend : Backend) (ldc : Ldc) (clock : Clock) where
  exchange-IsKept : IsKept ldc (λ l. Reach backend ldc l.exchange)
  unfolding stop_link
  exchange-IsKept = record {
    stops = λ l h. stepped h stopped;
    clocks = λ l t h. h;
    stores = λ l s h. stepped h (stored s);
    pushes = λ c o attrib l l' h e.
        subst (Reach backend ldc) (push_ptxt-exchange ldc c o attrib l l' e) h;
  }

  process_read-Reach :
      (inp next : Inputs) (from : Option AuthRef) (o : Outcome Message) (cy cy' : Cyber)
      → Reach backend ldc cy
      → process_read parse backend ldc inp next from o cy ≡ returned cy'
      → Reach backend ldc cy'
  unfolding process_read
  process_read-Reach inp next from failed cy cy' h e =
      subst (Reach backend ldc) (returned_inj cy cy' e) h
  process_read-Reach inp next from fault cy cy' h e = cc e
  process_read-Reach inp next from (returned msg) cy cy' h e =
      stepped h (processed inp from msg (state_of-Returns _ cy' e))

  pull_internal-Reach :
      (inp next : Inputs) (ps : List Pending) (l l' : Link)
      → Reach backend ldc l.exchange
      → pull_internal parse backend ldc inp next ps l ≡ returned l'
      → Reach backend ldc l'.exchange
  unfolding pull_internal process_pending
  pull_internal-Reach inp next [] l l' h e =
      subst (λ m. Reach backend ldc m.exchange) (returned_inj l l' e) h
  pull_internal-Reach inp next (p ∷ ps) l l' h e =
      let (cy, first, rest) =
        >>=-eq-returned (process_pending parse backend ldc inp next p l.exchange)
          (λ cy. returned (record l { exchange = cy; internal_q = ps })) e in
      subst (λ m. Reach backend ldc m.exchange) (returned_inj _ l' rest)
        (process_read-Reach inp next p.attrib
          (require p.buf >>= λ buf. deserialize_message parse buf) l.exchange cy h first)

  internal_round-Reach :
      (inp next : Inputs) (l l' : Link)
      → Reach backend ldc l.exchange
      → internal_round parse backend ldc inp next l ≡ returned l'
      → Reach backend ldc l'.exchange
  unfolding internal_round
  internal_round-Reach inp next l l' h e =
      let (m, pulled, rest) =
        >>=-eq-returned (pull_internal parse backend ldc inp next l.internal_q l)
          (λ m. state_of (initiate_challenge backend ldc next m.exchange) >>= λ cy.
            returned (record m { exchange = cy }))
          e in
      let (cy, second, last) =
        >>=-eq-returned (state_of (initiate_challenge backend ldc next m.exchange))
          (λ cy. returned (record m { exchange = cy })) rest in
      subst (λ x. Reach backend ldc x.exchange) (returned_inj _ l' last)
        (stepped (pull_internal-Reach inp next l.internal_q l m h pulled)
          (initiated next (state_of-Returns _ cy second)))

  send_first-Reach :
      (uuid : CStr) (now : ℕ) (qs : List Queued) (cy : Cyber)
      → Reach backend ldc cy
      → Reach backend ldc (send_first backend ldc uuid now qs cy).0
  unfolding send_first
  send_first-Reach uuid now [] cy h = h
  send_first-Reach uuid now (q ∷ qs) cy h =
      stepped (stepped h (taken qs)) (stored (written_payload backend ldc uuid now q cy).0)

  Move-Reach :
      {l l' : Link}
      → Move parse backend ldc clock l l'
      → Reach backend ldc l.exchange
      → Reach backend ldc l'.exchange
  unfolding send_round
  Move-Reach {l} {l'} (took_in r e) h =
      receive_round-kept ldc (λ m. Reach backend ldc m.exchange) exchange-IsKept backend clock r l
        l' h e
  Move-Reach {l} {l'} (handled inp next e) h = internal_round-Reach inp next l l' h e
  Move-Reach {l} (transmitted uuid now) h = send_first-Reach uuid now l.exchange.send_q l.exchange h
  Move-Reach (delivered p ps e) h = h
  Move-Reach (called cy step) h = stepped h step

  -- Whatever rounds the threads of a new connection run and whatever calls come between them, the
  -- state of its exchange is one that the exchange alone reaches by its calls.
  pub Runs-Reach : (l : Link) → Runs parse backend ldc clock l → Reach backend ldc l.exchange
  Runs-Reach l (begun st now) = created st
  Runs-Reach l (moved r m) = Move-Reach m (Runs-Reach _ r)
