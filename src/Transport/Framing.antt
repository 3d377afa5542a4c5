-- ===== src/Transport/Framing.antt =====
-- Payloads that transport_payload_write of src/transport/transport.c sends, and what
-- transport_payload_read receives.
use rsmp_gatewa.Common.{
  ℕ, zero, suc, ◌+◌, ◌≤◌, ◌≡◌, ◌≢◌, ◌⊎◌, refl, ap, ◌∙◌, true, false, Option, none, some, List, [],
  ◌∷◌, ◌++◌, append-nil, arith, leb, lt→ltb, inl, inr, Bool-cases, length, All, Outcome, returned,
  failed, fault,
}
use rsmp_gatewa.Transport.{
  Reading, byte, lost, quiet, rsmp_eot, ends_payload, Buffer, bufrealloc, store, Ending, after_byte,
  read_loop, new_buffer, Received, payload, connection_error, generic_error, reversed, received,
  after_loop, transport_payload_read, packet, transport_payload_write,
}

-- The connection gives these characters, and then `rest`.
abbrev pub fed : List ℕ → List Reading → List Reading
fed [] rest = rest
fed (c ∷ cs) rest = byte c ∷ fed cs rest

-- A payload of characters that end none.
abbrev pub IsPlain : List ℕ → Type 0
IsPlain = All (λ c. ends_payload c ≡ false)

-- Payloads that are sent one after the other, and reads until one gives no payload.
pub send_all : (List ℕ → Option ℕ) → List (List ℕ) → List ℕ
send_all write [] = []
send_all write (p ∷ ps) = (transport_payload_write write p).0 ++ send_all write ps

abbrev payload_of : Outcome (Received × List Reading) → Option (List ℕ × List Reading)
payload_of failed = none
payload_of fault = none
payload_of (returned (payload p, rest)) = some (p, rest)
payload_of (returned (connection_error, rest)) = none
payload_of (returned (generic_error, rest)) = none

pub receive_all : ℕ → List Reading → List (List ℕ)
receive_all zero input = []
receive_all (suc n) input = elim (payload_of (transport_payload_read input)) [
  | none ↦ []
  | some (p, rest) ↦ p ∷ receive_all n rest
]

-- The buffer grows before the character that it has no place for.
store-bufrealloc :
    (c : ℕ) (b : Buffer)
    → b.i ≤ b.lenmax
    → (b' : Buffer) × (store c (bufrealloc b) ≡ returned b')
      × (b'.stored ≡ c ∷ b.stored)
      × (b'.i ≤ b'.lenmax)
unfolding store bufrealloc
store-bufrealloc c b room = elim (Bool-cases (leb b.lenmax b.i)) [
  | inl full ↦ (
    record { stored = c ∷ b.stored; i = b.i + 1; lenmax = b.lenmax + 128 },
    rw full (rw (lt→ltb b.i (b.lenmax + 128) (omega arith)) refl),
    refl,
    omega arith,
  )
  | inr free ↦ (
    record { stored = c ∷ b.stored; i = b.i + 1; lenmax = b.lenmax },
    rw free (rw (lt→ltb b.i b.lenmax (ground arith)) refl),
    refl,
    ground arith,
  )
]

abbrev last_reading : List ℕ → Option Reading → Option Reading
last_reading [] r = r
last_reading (c ∷ cs) r = last_reading cs (some (byte c))

-- Characters that end no payload are stored.
read_loop-fed :
    (p : List ℕ) (tail : List Reading) (r : Option Reading) (b : Buffer)
    → IsPlain p
    → b.i ≤ b.lenmax
    → (b' : Buffer) × (read_loop (fed p tail) r b ≡ read_loop tail (last_reading p r) b')
      × (b'.stored ≡ reversed p b.stored)
      × (b'.i ≤ b'.lenmax)
unfolding reversed read_loop after_byte
read_loop-fed [] tail r b plain room = (b, refl, refl, room)
read_loop-fed (c ∷ cs) tail r b (goes, plain) room =
    let (b1, w, st, room1) = store-bufrealloc c b room in
    let (b', e, stored, room') = read_loop-fed cs tail (some (byte c)) b1 plain room1 in
    (b', rw w (rw goes e), stored ∙ ap (reversed cs) st, room')

reversed-reversed : (p acc q : List ℕ) → reversed (reversed p acc) q ≡ reversed acc (p ++ q)
unfolding reversed
reversed-reversed [] acc q = refl
reversed-reversed (c ∷ cs) acc q = reversed-reversed cs (c ∷ acc) q

twice-reversed : (p : List ℕ) → reversed (reversed p []) [] ≡ p
unfolding reversed
twice-reversed p = reversed-reversed p [] [] ∙ append-nil p

-- What was stored before the last character is the payload.
payload-received :
    (p : List ℕ) (c : ℕ) (e : Ending)
    → e.r ≡ some (byte c)
    → e.buffer.stored ≡ c ∷ reversed p []
    → received e e.r ≡ returned (payload p, e.rest)
unfolding received
payload-received p c e last held = rw last (rw held (rw (twice-reversed p) refl))

fed-append : (p q : List ℕ) (rest : List Reading) → fed (p ++ q) rest ≡ fed p (fed q rest)
fed-append [] q rest = refl
fed-append (c ∷ cs) q rest = ap (λ r. byte c ∷ r) (fed-append cs q rest)

-- A character that ends a payload: the terminator, or NUL.
read-until :
    (p : List ℕ) (c : ℕ) (rest : List Reading)
    → IsPlain p
    → ends_payload c ≡ true
    → transport_payload_read (fed p (byte c ∷ rest)) ≡ returned (payload p, rest)
unfolding transport_payload_read after_loop read_loop after_byte
read-until p c rest plain ends =
    let (b, e, held, room) = read_loop-fed p (byte c ∷ rest) none new_buffer plain (omega arith) in
    let (b', w, st, room') = store-bufrealloc c b room in
    rw e (
      rw w (
        rw ends (
          payload-received p c (record { r = some (byte c); buffer = b'; rest = rest }) refl
            (st ∙ ap (λ t. c ∷ t) held))))

-- A packet is read as its payload, and what follows it is left.
pub read-packet :
    (p : List ℕ) (rest : List Reading)
    → IsPlain p
    → transport_payload_read (fed (packet p) rest) ≡ returned (payload p, rest)
unfolding packet ends_payload
read-packet p rest plain =
    rw (fed-append p (rsmp_eot ∷ []) rest) (read-until p rsmp_eot rest plain refl)

-- Payloads without the characters RSMP_EOT and NUL, sent one after the other, are received one by
-- one as they were sent, whatever the connection gives after them.
pub receive_all-send_all :
    (write : List ℕ → Option ℕ) (ps : List (List ℕ)) (rest : List Reading)
    → All IsPlain ps
    → receive_all (length ps) (fed (send_all write ps) rest) ≡ ps
unfolding receive_all send_all transport_payload_write
receive_all-send_all write [] rest plain = refl
receive_all-send_all write (p ∷ ps) rest (first, plain) =
    rw (fed-append (packet p) (send_all write ps) rest) (
      rw (receive_all, read-packet p (fed (send_all write ps) rest) first)
        (ap (λ qs. p ∷ qs) (receive_all-send_all write ps rest plain)))

-- A connection that closes after some characters, of which none ends a payload, gives a payload all
-- the same: all but the last of them.
pub transport_payload_read_cut :
    (p : List ℕ) (c : ℕ)
    → IsPlain p
    → ends_payload c ≡ false
    → transport_payload_read (fed p (byte c ∷ [])) ≡ returned (payload p, [])
unfolding transport_payload_read after_loop read_loop after_byte
transport_payload_read_cut p c plain goes =
    let (b, e, held, room) = read_loop-fed p (byte c ∷ []) none new_buffer plain (omega arith) in
    let (b', w, st, room') = store-bufrealloc c b room in
    rw e (
      rw w (
        rw goes (
          payload-received p c (record { r = some (byte c); buffer = b'; rest = [] }) refl
            (st ∙ ap (λ t. c ∷ t) held))))

-- The loop stays within its buffer, and sets its result where it reads anything.
read_loop_safe :
    (input : List Reading) (r : Option Reading) (b : Buffer)
    → b.i ≤ b.lenmax
    → (input ≢ []) ⊎ (r ≢ none)
    → (e : Ending) × (read_loop input r b ≡ returned e) × (e.r ≢ none)
unfolding read_loop after_byte
read_loop_safe [] r b room (inl some_input) = absurd (some_input refl)
read_loop_safe [] r b room (inr known) = (record { r = r; buffer = b; rest = [] }, refl, known)
read_loop_safe (lost ∷ rest) r b room h =
    (record { r = some lost; buffer = b; rest = rest }, refl, λ e. cc)
read_loop_safe (quiet ∷ rest) r b room h =
    (record { r = some quiet; buffer = b; rest = rest }, refl, λ e. cc)
read_loop_safe (byte c ∷ rest) r b room h =
    let (b', w, st, room') = store-bufrealloc c b room in
    let (e, after, set) = read_loop_safe rest (some (byte c)) b' room' (inr (λ q. cc)) in
    elim (Bool-cases (ends_payload c)) [
      | inl ends ↦
          (record { r = some (byte c); buffer = b'; rest = rest }, rw w (rw ends refl), λ q. cc)
      | inr goes ↦ (e, rw w (rw goes after), set)
    ]

received-ne-fault : (e : Ending) (r : Option Reading) → r ≢ none → received e r ≢ fault
unfolding received
received-ne-fault e none set q = absurd (set refl)
received-ne-fault e (some lost) set q = cc
received-ne-fault e (some quiet) set q = cc
received-ne-fault e (some (byte c)) set q = cc

-- Where the connection gives anything at all, however long, transport_payload_read stays within the
-- buffer that it enlarges, and uses no value that was not set.
pub transport_payload_read-ne-fault :
    (input : List Reading) → input ≢ [] → transport_payload_read input ≢ fault
unfolding transport_payload_read after_loop
transport_payload_read-ne-fault input some_input =
    let (e, w, set) = read_loop_safe input none new_buffer (omega arith) (inl some_input) in
    rw w (received-ne-fault e e.r set)
