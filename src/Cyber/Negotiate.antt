-- ===== src/Cyber/Negotiate.antt =====
-- src/cyber/cyber.c: cyber_exchange_leader and cyber_exchange_follower, which choose the cipher. A
-- CipherAgreement message, read and written by src/coder/coder.c, is the record `Agreement`; that the
-- peer's one could not be received or parsed is `failed`. A transport whose send fails is not modelled.
pub mod Agree
use rsmp_gatewa.Common.{
  ℕ, zero, suc, Bool, false, Option, none, some, List, [], ◌∷◌, ◌++◌, length, CStr, str_eq,
  if◌then◌else◌, Outcome, returned, failed, fault, guard,
}
use rsmp_gatewa.Cipher.{Cipher, Table, cipher_get_by_str, cipher_foreach}

pub record Agreement : Type 0 where
  pub s_id : CStr
  pub ciphers : List CStr

-- The fields of cyber_t and cyber_priv_t that the choice reads and sets.
pub record Peer : Type 0 where
  pub s_id_local : CStr
  pub s_id_remote : Option CStr
  pub cipher : Option Cipher

abbrev pub add_enabled : List CStr → Cipher → List CStr
add_enabled names c = if c.enabled then names ++ c.lib ∷ [] else names

-- cipher_foreach_cb over the table: the names of the enabled ciphers.
unfoldable pub enabled_names : Table → List CStr
unfolding cipher_foreach
enabled_names table = (cipher_foreach add_enabled [] table).0

-- The test of the remote site, which is kept if none was set.
unfoldable pub accept_site : CStr → Peer → Outcome Peer
accept_site rxed peer = elim peer.s_id_remote [
  | none ↦ returned (record peer { s_id_remote = some rxed })
  | some expected ↦ if str_eq rxed expected then returned peer else failed
]

abbrev pub name_at : List CStr → ℕ → Option CStr
name_at [] i = none
name_at (n ∷ ns) zero = some n
name_at (n ∷ ns) (suc i) = name_at ns i

abbrev pub usable : Option Cipher → Option Cipher
usable none = none
usable (some c) = if c.enabled then some c else none

abbrev pub or_earlier : Option Cipher → Option Cipher → Option Cipher
or_earlier none rest = rest
or_earlier (some c) rest = some c

-- The loop from the last of `i` names to the first.
unfoldable pub last_usable : Table → List CStr → ℕ → Option Cipher
last_usable table names zero = none
last_usable table names (suc i) =
    let rest = last_usable table names i in
    or_earlier (usable (cipher_get_by_str table (name_at names i))) rest

unfoldable pub choose : Table → List CStr → Outcome Cipher
unfolding last_usable
choose table names = elim (last_usable table names (length names)) [
  | none ↦ failed
  | some c ↦ returned c
]

-- The peer, and the answer that is sent; on a failure a remote site that was accepted stays set.
unfoldable pub cyber_exchange_leader : Table → Outcome Agreement → Peer → Peer × Outcome Agreement
cyber_exchange_leader table rxed peer = elim rxed [
  | failed ↦ (peer, failed)
  | fault ↦ (peer, fault)
  | returned offer ↦ elim (accept_site offer.s_id peer) [
    | failed ↦ (peer, failed)
    | fault ↦ (peer, fault)
    | returned peer' ↦ elim (choose table offer.ciphers) [
      | failed ↦ (peer', failed)
      | fault ↦ (peer', fault)
      | returned c ↦ (
        record peer' { cipher = some c },
        returned (record { s_id = peer'.s_id_local; ciphers = c.lib ∷ [] }),
      )
    ]
  ]
]

-- What the follower sends first.
unfoldable pub follower_offer : Table → Peer → Agreement
follower_offer table peer = record { s_id = peer.s_id_local; ciphers = enabled_names table }

abbrev pub is_enabled : Option Cipher → Bool
is_enabled none = false
is_enabled (some c) = c.enabled

-- The answer must name one cipher, which is enabled here too; a cipher that is not stays set.
unfoldable pub take_answer : Table → List CStr → Peer → Peer × Outcome (Unit {0})
take_answer table [] peer = (peer, failed)
take_answer table (n ∷ []) peer =
    let c = cipher_get_by_str table (some n) in (record peer { cipher = c }, guard (is_enabled c))
take_answer table (n ∷ m ∷ ns) peer = (peer, failed)

-- The peer after the answer, and whether the exchange succeeded.
unfoldable pub cyber_exchange_follower :
    Table → Outcome Agreement → Peer → Peer × Outcome (Unit {0})
cyber_exchange_follower table rxed peer = elim rxed [
  | failed ↦ (peer, failed)
  | fault ↦ (peer, fault)
  | returned answer ↦ elim (accept_site answer.s_id peer) [
    | failed ↦ (peer, failed)
    | fault ↦ (peer, fault)
    | returned peer' ↦ take_answer table answer.ciphers peer'
  ]
]
