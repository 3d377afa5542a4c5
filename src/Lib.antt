-- ===== src/Lib.antt =====
-- A verification library for the RSMP gateway, a C program that carries the messages of traffic
-- signal equipment between two sites over an encrypted connection. It models the part that
-- decides who may talk: the ciphers, the passwords and their change, the messages that two
-- gateways exchange about them, and the state of an exchange.
--
-- How the parts work together. An exchange (src/cyber) first agrees on a cipher with its peer,
-- one of the table of src/cipher. It then sends challenges: a new password is drawn for a login
-- of the store of entries (src/auth), sealed by src/coder under a key that is derived from the
-- current password, and sent with a Ping sealed under the key of the new one. The peer stores the
-- password and answers; the answer makes the entry switch. When no challenge is due, an AllClear
-- goes out, and traffic opens when both sides have sent theirs. The encodings of src/crypt carry
-- binary data in the texts. The messages of the application (src/rsmp) are JSON objects,
-- described field by field in tables; src/transport frames payloads on the connection.
--
-- The files and what they model:
--   * Common: tests on numbers, lists over the native numbers, C strings (a list of bytes without
--     the terminator), results of C functions (returned, failed, fault), and chained lists under
--     a text key.
--   * Crypt: src/crypt/bcd.c and src/crypt/base64.c. Crypt/Aes: the ciphers of src/crypt/crypt.c
--     over the calls of OpenSSL, and the derivation of keys of src/cipher/cipher.c.
--   * Cipher: src/cipher/cipher.c, the table of the ciphers.
--   * Auth/Pwd, Auth/Entry, Auth/Store: src/auth/auth-pwd.c, the types of src/auth/auth.h, and
--     the tree of databases, sites and logins of src/auth/auth-basic.c. Store/Paths, Store/Map
--     and Store/Reach see the tree as a map from three keys to an entry, Store/Walk has the walks
--     over it.
--   * Auth/Rotation: src/auth/auth.c, the change of a password. Auth/File: the file of the
--     entries of src/auth/auth-basic.c, written and read.
--   * Coder/Message, Coder/Secrets, Coder/Container: the internal messages, the derived keys and
--     the sealed items of src/coder/coder.c, and the container of encrypted texts as
--     Encrypted_encode builds it and Encrypted_decode opens it. Container/Ciphered puts the
--     ciphers of Crypt/Aes under it. Coder/Agreement: the texts of CipherAgreement and
--     MessageAck, and the readers of single messages.
--   * Cyber: src/cyber/cyber.c and src/cyber/challenge_ctxt.c. Negotiate is the choice of the
--     cipher, State the state of an exchange (struct cyber_priv), Challenge the start of a
--     challenge with Challenge_encode, Handle the cases of cyber_process_internal_msg and _send.
--     Invariant and Reach are about all calls in any order, Answers, Switch and LongPassword
--     about single ones. Link has the threads of a connection and the queues between them and the
--     application: Kept, Refines, Terminated and Timeout are about all rounds in any order,
--     Delivery and EndToEnd about what arrives.
--   * Sync: src/sync/ldc-mutex.c, a list with its number of entries, and src/sync/queue.c, the
--     queue of messages between threads. Number and Signal relate the counter and the semaphore
--     to the entries.
--   * Rsmp: src/rsmp. Values are the variables of src/rsmp/coder/vars.h and the values of json-c,
--     Fields the tables and the encoders of src/rsmp/fields and src/rsmp/vars, Coder the coder of
--     src/rsmp/coder/json.c over a description of a message, Descriptions the descriptions of
--     src/rsmp/messages, Messages the functions between a message and a payload (with what does
--     not fit its memory in the modules named Overflow), Arrays the macros of
--     src/rsmp/vars/array.h, Versions the lists of versions of src/rsmp/fields and their
--     comparison, Display the JSON texts for displays of src/rsmp/sxl/display.
--   * Transport: src/transport/transport.c, the framing of payloads on a connection.
--   * The modules named Examples apply the theorems to concrete inputs.
--
-- Names are those of the source with capitals written as words (sIdRemote is s_id_remote). A
-- pointer that may be null is an Option; a pointer to an entry is the path of its keys, and a
-- change through it an update of the store. An access outside an object, a failed assertion or a
-- null pointer that is followed is fault in a function and crashed in a call of an exchange.
-- Functions that change state take it and return it with their code, on every path.
--
-- What is a parameter. The chained lists (lstdblcyc) are the record Ldc: an insertion puts the
-- item somewhere and keeps the order of the others. The semaphore of the module lock is the
-- record Semaphore. The calls of OpenSSL are the record Evp; the functions of a cipher, the
-- printing of JSON (json-c) and of a time are the record Backend; the parsing of JSON is an
-- argument of the functions that read messages. The texts of a uuid (libuuid) and of a time
-- (src/rsmp/vars/timestamp.c over strftime and strptime, which is not modelled) are the record
-- Texts, what opens a container is the record Opening (the decryption, the parsing, the reading
-- of times and the clock), what splits and prints a line of the file of entries the record
-- FileTexts, and what a connection gives is the list of the results of its reads. The results of
-- rand, of uuid_generate and of the clock are arguments. Numbers are unbounded but for the places
-- where a width decides: the counter of a list is a size_t, which wraps at 2 to the power of 64,
-- and the char that holds the length of a padding wraps at 256 and is signed (as on x86 and under
-- -fsigned-char, which Build/rules.d/arm64.mk and armhf.mk do not set), and the length that
-- decrypt_aes counts down is a size_t too. Loops are recursions on the lists or counters they
-- walk, so no fuel is needed.
--
-- Not modelled: sockets, the waits of threads (each round of a thread and each call is one step,
-- in any order), the allocation of memory, which never fails, logging (with the shell command of
-- log_auth_info), the handlers of the messages of the RSMP protocol and what a new one starts
-- with, the signal exchange lists, and the subscribers of events.
pub mod Common
pub mod Crypt
pub mod Cipher
pub mod Coder
pub mod Cyber
pub mod Sync
pub mod Auth
pub mod Rsmp
pub mod Transport
