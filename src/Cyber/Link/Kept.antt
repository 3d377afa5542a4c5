-- ===== src/Cyber/Link/Kept.antt =====
-- src/cyber/cyber.c: what every round of cyber_receive keeps.
pub mod Inside
use rsmp_gatewa.Common.{
  returned_inj, ◌≡◌, subst, ℕ, Bool, true, false, Option, none, some, List, [], ◌∷◌, CStr,
  if◌then◌else◌, Bool-cases, inl, inr, Ldc, Outcome, returned, failed, fault, >>=-eq-returned,
}
use rsmp_gatewa.Auth.Store.{Store}
use rsmp_gatewa.Cipher.{Cipher}
use rsmp_gatewa.Coder.Secrets.{Backend, Class}
use rsmp_gatewa.Coder.Container.{Opening, Ptxt}
use rsmp_gatewa.Coder.Container.Open.{Container, Opened, encrypted_decode}
use rsmp_gatewa.Cyber.State.{AuthRef}
use rsmp_gatewa.Cyber.Link.{
  Clock, Link, Arrival, arrived, connection_closed, other_error, Round, stop_link, is_late,
  check_timeout, container_of, auth_of, push_ptxt, push_ptxts, push_decoded, after_decode,
  decode_payload, on_arrival, receive_round,
}

-- A predicate on connections that the parts of a round of cyber_receive keep.
pub record IsKept (ldc : Ldc) (P : Link → Type 0) : Type 0 where
  pub stops : (l : Link) → P l → P (stop_link l)
  pub clocks : (l : Link) (t : ℕ) → P l → P (record l { last_rxed = t })
  pub stores :
      (l : Link) (s : Store) → P l → P (record l { exchange = record l.exchange { store = s } })
  pub pushes :
      (c : Option Class) (o : Option CStr) (attrib : Option AuthRef) (l l' : Link)
      → P l
      → push_ptxt ldc c o attrib l ≡ returned l'
      → P l'

module _ (ldc : Ldc) (P : Link → Type 0) (kept : IsKept ldc P) where
  push_ptxts-kept :
      (ps : List Ptxt) (attrib : Option AuthRef) (l l' : Link)
      → P l
      → push_ptxts ldc ps attrib l ≡ returned l'
      → P l'
  unfolding push_ptxts
  push_ptxts-kept [] attrib l l' h e = subst P (returned_inj l l' e) h
  push_ptxts-kept (p ∷ ps) attrib l l' h e =
      let (m, first, rest) =
        >>=-eq-returned (push_ptxt ldc p.class p.original attrib l) (push_ptxts ldc ps attrib) e in
      push_ptxts-kept ps attrib m l' (kept.pushes p.class p.original attrib l m h first) rest

  push_decoded-kept :
      (o : Outcome (List Ptxt)) (attrib : Option AuthRef) (l l' : Link)
      → P l
      → push_decoded ldc o attrib l ≡ returned l'
      → P l'
  unfolding push_decoded
  push_decoded-kept (returned ps) attrib l l' h e = push_ptxts-kept ps attrib l l' h e
  push_decoded-kept failed attrib l l' h e = subst P (returned_inj l l' e) h
  push_decoded-kept fault attrib l l' h e = cc e

  after_decode-kept :
      (c : Outcome Container) (o : Opened (List Ptxt)) (l l' : Link)
      → P l
      → after_decode ldc c o l ≡ returned l'
      → P l'
  unfolding after_decode
  after_decode-kept failed o l l' h e = cc e
  after_decode-kept fault o l l' h e = cc e
  after_decode-kept (returned c) o l l' h e =
      push_decoded-kept o.result (auth_of o.auth)
        (record l { exchange = record l.exchange { store = o.store } }) l' (kept.stores l o.store h)
        e

  decode_payload-kept :
      (backend : Backend) (op : Opening) (payload : CStr) (len : ℕ) (c : Option Cipher)
      (local : Option CStr) (l l' : Link)
      → P l
      → decode_payload ldc backend op payload len c local l ≡ returned l'
      → P l'
  unfolding decode_payload
  decode_payload-kept backend op payload len none local l l' h e = cc e
  decode_payload-kept backend op payload len (some c) none l l' h e = cc e
  decode_payload-kept backend op payload len (some c) (some local) l l' h e =
      after_decode-kept (container_of op payload len)
        (encrypted_decode op backend ldc c.lib local (some payload) len l.exchange.store) l l' h e

  check_timeout-kept : (clock : Clock) (now : ℕ) (l : Link) → P l → P (check_timeout clock now l)
  unfolding check_timeout
  check_timeout-kept clock now l h =
      elim (Bool-cases (is_late (clock.diff now l.last_rxed) l.to_sec)) [
        | inl late ↦ rw late (kept.stops l h)
        | inr early ↦ rw early h
      ]

  if-kept :
      (b : Bool) (x y : Outcome Link) (l' : Link)
      → (x ≡ returned l' → P l')
      → (y ≡ returned l' → P l')
      → (if b then x else y) ≡ returned l'
      → P l'
  if-kept true x y l' h k e = h e
  if-kept false x y l' h k e = k e

  on_arrival-kept :
      (backend : Backend) (clock : Clock) (a : Arrival) (now : ℕ) (op : Opening) (l l' : Link)
      → P l
      → on_arrival ldc backend clock a now op l ≡ returned l'
      → P l'
  unfolding on_arrival
  on_arrival-kept backend clock connection_closed now op l l' h e =
      subst P (returned_inj _ l' e) (kept.stops l h)
  on_arrival-kept backend clock other_error now op l l' h e =
      subst P (returned_inj _ l' e) (check_timeout-kept clock now l h)
  on_arrival-kept backend clock (arrived payload len) now op l l' h e =
      if-kept l.exchange.stop (returned (check_timeout clock now l))
        (decode_payload ldc backend op payload len l.exchange.cipher l.exchange.s_id_local
          (record l { last_rxed = now }))
        l' (λ k. subst P (returned_inj _ l' k) (check_timeout-kept clock now l h))
        (decode_payload-kept backend op payload len l.exchange.cipher l.exchange.s_id_local
          (record l { last_rxed = now }) l' (kept.clocks l now h))
        e

  pub receive_round-kept :
      (backend : Backend) (clock : Clock) (r : Round) (l l' : Link)
      → P l
      → receive_round ldc backend clock r l ≡ returned l'
      → P l'
  unfolding receive_round
  receive_round-kept backend clock r l l' h e =
      on_arrival-kept backend clock r.arrival r.now r.opening l l' h e
