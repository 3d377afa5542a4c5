-- ===== src/Transport.antt =====
-- src/transport/transport.c: the framing of payloads on the stream of a connection, and the reading
-- of the address. The module flux (sockets) is a parameter: what it gives to a reader is the list of
-- the results of its calls, after which the connection is not ok any more.
pub mod Framing
mod Examples
use rsmp_gatewa.Common.{
  ℕ, ◌+◌, Bool, false, ◌||◌, Option, none, some, List, [], ◌∷◌, ◌++◌, ltb, leb, ◌==◌, if◌then◌else◌,
  length, Outcome, returned, failed, fault,
}

-- The result of flux->read for one character: the character, the loss of the connection (-1), or
-- another result that is no character (a timeout).
pub data Reading : Type 0 where
  byte : ℕ → Reading
  lost : Reading
  quiet : Reading

-- RSMP_EOT
abbrev pub rsmp_eot : ℕ
rsmp_eot = 12

-- `strchr(term, c) != NULL` for the string of RSMP_EOT; strchr finds the final NUL too.
unfoldable pub ends_payload : ℕ → Bool
ends_payload c = c == rsmp_eot || c == 0

-- The state of fluxreadterm_with_realloc: the characters that were stored, the last first, their
-- number, and the size of the buffer.
pub record Buffer : Type 0 where
  pub stored : List ℕ
  pub i : ℕ
  pub lenmax : ℕ

-- bufrealloc, with an offset of 128
unfoldable pub bufrealloc : Buffer → Buffer
bufrealloc b = if leb b.lenmax b.i then record b { lenmax = b.lenmax + 128 } else b

-- `(*buf)[i++] = c`
unfoldable pub store : ℕ → Buffer → Outcome Buffer
store c b =
    if ltb b.i b.lenmax then returned (record b { stored = c ∷ b.stored; i = b.i + 1 }) else fault

-- How the loop ends: the last result, which is not set where the connection was never ok, the
-- buffer, and what the connection gives next.
pub record Ending : Type 0 where
  pub r : Option Reading
  pub buffer : Buffer
  pub rest : List Reading

-- A round that read a character ends the loop where it ends the payload.
unfoldable pub after_byte : ℕ → List Reading → Outcome Ending → Outcome Buffer → Outcome Ending
unfolding ends_payload
after_byte c rest next failed = failed
after_byte c rest next fault = fault
after_byte c rest next (returned b) =
    if ends_payload c
    then returned (record { r = some (byte c); buffer = b; rest = rest })
    else next

abbrev buffer_of : Buffer → Outcome Buffer → Buffer
buffer_of b (returned b') = b'
buffer_of b failed = b
buffer_of b fault = b

unfoldable pub read_loop : List Reading → Option Reading → Buffer → Outcome Ending
unfolding after_byte store bufrealloc
read_loop [] r b = returned (record { r = r; buffer = b; rest = [] })
read_loop (lost ∷ rest) r b = returned (record { r = some lost; buffer = b; rest = rest })
read_loop (quiet ∷ rest) r b = returned (record { r = some quiet; buffer = b; rest = rest })
read_loop (byte c ∷ rest) r b =
    let written = store c (bufrealloc b) in
    let next = read_loop rest (some (byte c)) (buffer_of b written) in
    after_byte c rest next written

abbrev pub new_buffer : Buffer
new_buffer = record { stored = []; i = 0; lenmax = 128 }

-- What transport_payload_read returns: a payload, an error of the connection, or another error.
pub data Received : Type 0 where
  payload : List ℕ → Received
  connection_error : Received
  generic_error : Received

-- The last character is replaced by the terminator of the string.
abbrev pub without_last : List ℕ → List ℕ
without_last [] = []
without_last (c ∷ cs) = cs

unfoldable pub reversed : List ℕ → List ℕ → List ℕ
reversed [] acc = acc
reversed (c ∷ cs) acc = reversed cs (c ∷ acc)

unfoldable pub received : Ending → Option Reading → Outcome (Received × List Reading)
unfolding reversed
received e none = fault
received e (some lost) = returned (connection_error, e.rest)
received e (some quiet) = returned (generic_error, e.rest)
received e (some (byte c)) = returned (payload (reversed (without_last e.buffer.stored) []), e.rest)

unfoldable pub after_loop : Outcome Ending → Outcome (Received × List Reading)
unfolding received
after_loop failed = failed
after_loop fault = fault
after_loop (returned e) = received e e.r

unfoldable pub transport_payload_read : List Reading → Outcome (Received × List Reading)
unfolding read_loop after_loop
transport_payload_read input = after_loop (read_loop input none new_buffer)

-- The characters that are given to flux->write, and whether all were written: `written` is its
-- result, none for one that is not positive.
unfoldable pub packet : List ℕ → List ℕ
packet bytes = bytes ++ rsmp_eot ∷ []

unfoldable pub all_written : ℕ → Option ℕ → Bool
all_written len none = false
all_written len (some n) = n == len

unfoldable pub transport_payload_write : (List ℕ → Option ℕ) → List ℕ → List ℕ × Bool
unfolding packet all_written
transport_payload_write write bytes =
    (packet bytes, all_written (length bytes + 1) (write (packet bytes)))
