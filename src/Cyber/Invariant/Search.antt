-- ===== src/Cyber/Invariant/Search.antt =====
-- The search of a login for a challenge, in src/cyber/cyber.c, gives no challenge that runs.
use rsmp_gatewa.Common.{
  ◌≡◌, refl, ℕ, false, Option, none, some, arith, CStr, Bool-cases, inl, inr, Ldc,
}
use rsmp_gatewa.Auth.Entry.{Auth}
use rsmp_gatewa.Auth.Rotation.{to_db_id}
use rsmp_gatewa.Auth.Store.Walk.Preserve.{auth_foreach_preserve}
use rsmp_gatewa.Coder.Secrets.{Backend}
use rsmp_gatewa.Cyber.State.{AuthRef, Challenge, Cyber, has_challenge, is_active}
use rsmp_gatewa.Cyber.Challenge.{
  Inputs, is_due, chosen, search_beside, search_login_for_challenge, search_challenge,
}
use rsmp_gatewa.Cyber.Invariant.{IsSound, IsValid}

abbrev pub IsIdle : Option Challenge → Type 0
IsIdle none = Unit
IsIdle (some c) = c.running ≡ false

chosen-IsIdle : (now : ℕ) (o : Option Challenge) (a : Auth) → IsIdle o → IsIdle (chosen now o a)
unfolding chosen
chosen-IsIdle now none a h = elim (Bool-cases (is_due now a)) [
  | inl due ↦ rw due refl
  | inr fresh ↦ rw fresh tt
]
chosen-IsIdle now (some c) a h = elim (Bool-cases (is_due now a)) [
  | inl due ↦ rw due h
  | inr fresh ↦ rw fresh h
]

search_beside-IsIdle :
    (now : ℕ) (c : Challenge) (r : Option AuthRef) (a : Auth)
    → c.running ≡ false
    → IsIdle (search_beside now c r a).0
unfolding search_beside
search_beside-IsIdle now c none a h = chosen-IsIdle now (some c) a h
search_beside-IsIdle now c (some r) a h = elim (Bool-cases (is_active c)) [
  | inl active ↦ rw active h
  | inr ended ↦ rw ended (chosen-IsIdle now none a tt)
]

search_login-IsIdle :
    (now : ℕ) (o : Option Challenge) (d : CStr) (a : Auth)
    → IsIdle o
    → IsIdle (search_login_for_challenge now o d a).0
unfolding search_login_for_challenge
search_login-IsIdle now none d a h = chosen-IsIdle now none a tt
search_login-IsIdle now (some c) d a h = search_beside-IsIdle now c c.auth a h

unless_active-IsIdle : (o : Option Challenge) → has_challenge o ≡ false → IsIdle o
unfolding has_challenge
unless_active-IsIdle none h = tt
unless_active-IsIdle (some c) h = ground arith

IsIdle→IsSound : (o : Option Challenge) → IsIdle o → IsSound o
IsIdle→IsSound none h = tt
IsIdle→IsSound (some c) h = λ running. absurd (cc (running, h))

pub search_challenge-IsValid :
    (backend : Backend) (ldc : Ldc) (inp : Inputs) (cy : Cyber)
    → IsValid cy
    → IsValid (search_challenge backend ldc inp cy)
unfolding search_challenge
search_challenge-IsValid backend ldc inp cy (sound, opened) =
    elim (Bool-cases (has_challenge cy.challenge)) [
      | inl active ↦ rw active (sound, opened)
      | inr idle ↦ rw idle (
        IsIdle→IsSound _ (
            auth_foreach_preserve IsIdle (search_login_for_challenge inp.now)
              (search_login-IsIdle inp.now) cy.challenge (some to_db_id) cy.s_id_remote cy.store
              (unless_active-IsIdle cy.challenge idle)),
        opened,
      )
    ]
