-- ===== src/Cyber/Invariant.antt =====
-- What every call of src/cyber/cyber.c keeps true of an exchange, unless the program crashes in it.
pub mod Encode
pub mod Search
pub mod Calls
pub mod Handlers
use rsmp_gatewa.Common.{
  ◌≡◌, refl, Bool, true, false, ◌||◌, Option, none, some, List, [], ◌∷◌, ◌++◌, arith, if◌then◌else◌,
}
use rsmp_gatewa.Cyber.State.{
  Challenge, Cyber, Code, ok, error, crashed, ◌then_do◌, Event, challenge_processing,
  all_clear_exchanged, cyber_lost,
}

abbrev pub is_some : {A : Type 0} → Option A → Bool
is_some none = false
is_some (some a) = true

-- A challenge that was sent knows its entry and both message identifiers.
abbrev pub IsLaunched : Challenge → Type 0
IsLaunched c =
    (is_some c.auth ≡ true)
    × ((is_some c.m_id_change_pwd_request ≡ true) × (is_some c.m_id_ping ≡ true))

-- A challenge that runs was launched and is not to be sent again.
abbrev pub IsSound : Option Challenge → Type 0
IsSound none = Unit
IsSound (some c) = c.running ≡ true → (c.to_send ≡ false) × IsLaunched c

unfoldable pub announces : Event → Bool
announces challenge_processing = false
announces all_clear_exchanged = true
announces cyber_lost = false

unfoldable pub announced : List Event → Bool
unfolding announces
announced [] = false
announced (e ∷ es) = announces e || announced es

-- The event that opens the exchange was triggered only with an AllClear received and one sent.
abbrev pub IsOpenedByBoth : Cyber → Type 0
IsOpenedByBoth cy =
    announced cy.events ≡ true → (cy.all_clear_rxed ≡ true) × (cy.all_clear_sent ≡ true)

abbrev pub IsValid : Cyber → Type 0
IsValid cy = IsSound cy.challenge × IsOpenedByBoth cy

-- The property of the state after a call that did not crash.
abbrev pub Holds : (Cyber → Type 0) → Cyber × Code → Type 0
Holds P (cy, ok) = P cy
Holds P (cy, error) = P cy
Holds P (cy, crashed) = Unit

pub then_do-Holds :
    (P : Cyber → Type 0) (r : Cyber × Code) (next : Cyber → Cyber × Code)
    → Holds P r
    → ((cy : Cyber) → P cy → Holds P (next cy))
    → Holds P (r then_do next)
unfolding ◌then_do◌
then_do-Holds P (cy, ok) next h step = step cy h
then_do-Holds P (cy, error) next h step = h
then_do-Holds P (cy, crashed) next h step = tt

pub announced-append :
    (es : List Event) (e : Event) → announced (es ++ e ∷ []) ≡ (announced es || announces e)
unfolding announced announces
announced-append [] e = ground arith
announced-append (d ∷ es) e = ground (arith, announced-append es e)

pub if-Holds :
    (P : Cyber → Type 0) (b : Bool) (r s : Cyber × Code)
    → (b ≡ true → Holds P r)
    → (b ≡ false → Holds P s)
    → Holds P (if b then r else s)
if-Holds P true r s h k = h refl
if-Holds P false r s h k = k refl
