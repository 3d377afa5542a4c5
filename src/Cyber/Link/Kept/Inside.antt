-- ===== src/Cyber/Link/Kept/Inside.antt =====
-- What a round of cyber_receive_internal of src/cyber/cyber.c leaves as it was.
use rsmp_gatewa.Common.{
  returned_inj, ◌≡◌, ap, ◌∙◌, Option, List, [], ◌∷◌, CStr, Ldc, returned, ◌>>=◌, >>=-eq-returned,
}
use rsmp_gatewa.Coder.Message.{Object}
use rsmp_gatewa.Coder.Secrets.{Backend}
use rsmp_gatewa.Cyber.State.{Cyber}
use rsmp_gatewa.Cyber.Challenge.{Inputs, initiate_challenge}
use rsmp_gatewa.Cyber.Link.{Pending, Link}
use rsmp_gatewa.Cyber.Link.Tasks.{state_of, process_pending, pull_internal, internal_round}

-- A part of a connection that is neither its exchange nor the queue of internal messages.
abbrev pub IsApart : {A : Type 0} → (Link → A) → Type 0
IsApart f =
    (l : Link) (cy : Cyber) (q : List Pending)
    → f l ≡ f (record l { exchange = cy; internal_q = q })

module _ (parse : CStr → Option Object) (backend : Backend) (ldc : Ldc) {A : Type 0} (f : Link → A)
    (apart : IsApart f) where
  pull_internal-same :
      (inp next : Inputs) (ps : List Pending) (l l' : Link)
      → pull_internal parse backend ldc inp next ps l ≡ returned l'
      → f l ≡ f l'
  unfolding pull_internal
  pull_internal-same inp next [] l l' e = ap f (returned_inj l l' e)
  pull_internal-same inp next (p ∷ ps) l l' e =
      let (cy, first, rest) =
        >>=-eq-returned (process_pending parse backend ldc inp next p l.exchange)
          (λ cy. returned (record l { exchange = cy; internal_q = ps })) e in
      apart l cy ps ∙ ap f (returned_inj _ l' rest)

  pub internal_round-same :
      (inp next : Inputs) (l l' : Link)
      → internal_round parse backend ldc inp next l ≡ returned l'
      → f l ≡ f l'
  unfolding internal_round
  internal_round-same inp next l l' e =
      let (m, pulled, rest) =
        >>=-eq-returned (pull_internal parse backend ldc inp next l.internal_q l)
          (λ m. state_of (initiate_challenge backend ldc next m.exchange) >>= λ cy.
            returned (record m { exchange = cy }))
          e in
      let (cy, second, last) =
        >>=-eq-returned (state_of (initiate_challenge backend ldc next m.exchange))
          (λ cy. returned (record m { exchange = cy })) rest in
      pull_internal-same inp next l.internal_q l m pulled
      ∙ apart m cy m.internal_q
      ∙ ap f (returned_inj _ l' last)
