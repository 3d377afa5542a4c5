-- ===== src/Cyber/Negotiate/Agree.antt =====
-- src/cyber/cyber.c: after the exchange leader and follower use one cipher, enabled on both sides.
use rsmp_gatewa.Common.{
  ◌≡◌, refl, sym, ap, ◌∙◌, ℕ, zero, suc, ◌==◌, ==_iff, subst, ◌<◌, true, Option, none, some, List,
  [], ◌∷◌, ◌++◌, append_assoc, append-nil, length, CStr, str_eq_refl, str_eq→eq, if◌then◌else◌,
  Bool-cases, Option-cases, inl, inr, arith, returned, find_by, find_by-key, DistinctKeys,
}
use rsmp_gatewa.Cipher.{Cipher, Table, lib_of, cipher_get_by_str, cipher_foreach}
use rsmp_gatewa.Cyber.Negotiate.{
  Agreement, Peer, add_enabled, enabled_names, accept_site, name_at, usable, or_earlier,
  last_usable, choose, cyber_exchange_leader, follower_offer, take_answer, cyber_exchange_follower,
}

-- The loop of the leader takes a usable cipher of the list, and no name behind it is usable; it takes
-- none only where no name is usable.
abbrev pub IsLast : Table → List CStr → ℕ → Option Cipher → Type 0
IsLast table names n none =
    (j : ℕ) → j < n → usable (cipher_get_by_str table (name_at names j)) ≡ none
IsLast table names n (some c) =
    (i : ℕ) × ((i < n)
      × ((usable (cipher_get_by_str table (name_at names i)) ≡ some c)
          × ((j : ℕ) → i < j → j < n → usable (cipher_get_by_str table (name_at names j)) ≡ none)))

below_or_here : (P : ℕ → Type 0) (n : ℕ) → ((j : ℕ) → j < n → P j) → P n → (j : ℕ) → j < suc n → P j
below_or_here P n below here j h = elim (Bool-cases (j == n)) [
  | inl same ↦ subst P (sym ((==_iff j n).0 same)) here
  | inr other ↦ below j (ground (arith, ==_iff j n))
]

or_earlier-IsLast :
    (table : Table) (names : List CStr) (n : ℕ) (rest o : Option Cipher)
    → IsLast table names n rest
    → usable (cipher_get_by_str table (name_at names n)) ≡ o
    → IsLast table names (suc n) (or_earlier o rest)
or_earlier-IsLast table names n rest (some c) ih e =
    (n, (omega arith, (e, λ j above below. absurd (omega arith))))
or_earlier-IsLast table names n none none ih e =
    below_or_here (λ j. usable (cipher_get_by_str table (name_at names j)) ≡ none) n ih e
or_earlier-IsLast table names n (some c) none (i, (h, (here, above))) e = (
  i,
  (
    omega arith,
    (
      here,
      λ j after below.
          below_or_here (λ j. i < j → usable (cipher_get_by_str table (name_at names j)) ≡ none) n
            (λ k b a. above k a b) (λ a. e) j below after,
    ),
  ),
)

-- For every table and every list of names that a peer may send, the leader takes the last name of the
-- list that is a cipher enabled here, and it takes none only where there is no such name.
pub last_usable-IsLast :
    (table : Table) (names : List CStr) (n : ℕ) → IsLast table names n (last_usable table names n)
unfolding last_usable
last_usable-IsLast table names zero = λ j h. absurd (omega arith)
last_usable-IsLast table names (suc n) =
    or_earlier-IsLast table names n _ _ (last_usable-IsLast table names n) refl

abbrev enabled_list : Table → List CStr
enabled_list [] = []
enabled_list (c ∷ cs) = if c.enabled then c.lib ∷ enabled_list cs else enabled_list cs

enabled_from :
    (acc : List CStr) (table : Table)
    → (cipher_foreach add_enabled acc table).0 ≡ acc ++ enabled_list table
unfolding cipher_foreach
enabled_from acc [] = sym (append-nil acc)
enabled_from acc (c ∷ cs) = elim (Bool-cases c.enabled) [
  | inl e ↦
      rw e (enabled_from (acc ++ c.lib ∷ []) cs ∙ append_assoc acc (c.lib ∷ []) (enabled_list cs))
  | inr e ↦ rw e (enabled_from acc cs)
]

-- A name of the list is that of one cipher, which is enabled.
abbrev IsOffered : Table → CStr → Type 0
IsOffered table n = (d : Cipher) × ((find_by lib_of n table ≡ some d) × (d.enabled ≡ true))

behind-IsOffered :
    (c : Cipher) (cs : Table) (n : CStr)
    → find_by lib_of c.lib cs ≡ none
    → IsOffered cs n
    → IsOffered (c ∷ cs) n
unfolding find_by
behind-IsOffered c cs n new (d, (found, enabled)) =
    (d, (ground (arith, str_eq→eq c.lib n), enabled))

first-IsOffered :
    (c : Cipher) (cs : Table) (i : ℕ) (n : CStr)
    → c.enabled ≡ true
    → DistinctKeys lib_of (c ∷ cs)
    → ((k : ℕ) → name_at (enabled_list cs) k ≡ some n → IsOffered cs n)
    → name_at (c.lib ∷ enabled_list cs) i ≡ some n
    → IsOffered (c ∷ cs) n
unfolding find_by
first-IsOffered c cs zero n on h ih e = (c, (ground (arith, str_eq_refl c.lib), on))
first-IsOffered c cs (suc i) n on h ih e = behind-IsOffered c cs n h.0 (ih i e)

enabled_list-IsOffered :
    (table : Table) (i : ℕ) (n : CStr)
    → DistinctKeys lib_of table
    → name_at (enabled_list table) i ≡ some n
    → IsOffered table n
unfolding find_by
enabled_list-IsOffered [] i n h e = cc
enabled_list-IsOffered (c ∷ cs) i n h e = elim (Bool-cases c.enabled) [
  | inl on ↦
      first-IsOffered c cs i n on h (λ k f. enabled_list-IsOffered cs k n h.1 f)
        (subst (λ b. name_at (if b then c.lib ∷ enabled_list cs else enabled_list cs) i ≡ some n) on
          e)
  | inr off ↦ behind-IsOffered c cs n h.0 (
      enabled_list-IsOffered cs i n h.1 (
        subst (λ b. name_at (if b then c.lib ∷ enabled_list cs else enabled_list cs) i ≡ some n) off
          e))
]

-- The name of the cipher that the leader takes stands in the list, and the cipher is enabled.
usable-name :
    (table : Table) (name : Option CStr) (c : Cipher)
    → usable (cipher_get_by_str table name) ≡ some c
    → (name ≡ some c.lib) × (c.enabled ≡ true)
unfolding cipher_get_by_str
usable-name table none c e = cc
usable-name table (some n) c e = elim (Option-cases (find_by lib_of n table)) [
  | inl missing ↦ cc
  | inr (d, found) ↦ let key = find_by-key lib_of n table d found in (ground arith, ground arith)
]

choose-last_usable :
    (table : Table) (names : List CStr) (c : Cipher)
    → choose table names ≡ returned c
    → last_usable table names (length names) ≡ some c
unfolding choose
choose-last_usable table names c e = ground arith

choose-IsOffered :
    (leader follower : Table) (c : Cipher)
    → DistinctKeys lib_of follower
    → choose leader (enabled_names follower) ≡ returned c
    → (c.enabled ≡ true) × IsOffered follower c.lib
unfolding enabled_names
choose-IsOffered leader follower c h e =
    let names = enabled_names follower in
    let (i, (below, (here, above))) : IsLast leader names (length names) (some c) =
      subst (IsLast leader names (length names)) (choose-last_usable leader names c e)
        (last_usable-IsLast leader names (length names)) in
    let (named, enabled) = usable-name leader (name_at names i) c here in
    (
      enabled,
      enabled_list-IsOffered follower i c.lib h
          (ap (λ ns. name_at ns i) (sym (enabled_from [] follower)) ∙ named),
    )

-- Where each side accepts the site of the other and the leader finds a cipher in the offer of the
-- follower, both exchanges succeed: each then has the cipher of one name, enabled in its own table,
-- and the site that it accepted. No two ciphers of the follower have one name.
pub negotiate-agree :
    (leader follower : Table) (l f l' f' : Peer) (c : Cipher)
    → DistinctKeys lib_of follower
    → accept_site f.s_id_local l ≡ returned l'
    → accept_site l'.s_id_local f ≡ returned f'
    → choose leader (enabled_names follower) ≡ returned c
    → (d : Cipher) × (answer : Agreement) × ((cyber_exchange_leader leader
            (returned (follower_offer follower f))
            l
          ≡ (record l' { cipher = some c }, returned answer))
        × ((cyber_exchange_follower follower (returned answer) f
              ≡ (record f' { cipher = some d }, returned tt))
            × ((c.lib ≡ d.lib) × ((c.enabled ≡ true) × (d.enabled ≡ true)))))
unfolding cyber_exchange_leader cyber_exchange_follower follower_offer take_answer cipher_get_by_str
negotiate-agree leader follower l f l' f' c h le fe e =
    let (on, (d, (found, enabled))) = choose-IsOffered leader follower c h e in
    (
      d,
      record { s_id = l'.s_id_local; ciphers = c.lib ∷ [] },
      (
        rw (cyber_exchange_leader, le, e) refl,
        (
          rw (cyber_exchange_follower, fe, found, enabled) refl,
          (sym (find_by-key lib_of c.lib follower d found), (on, enabled)),
        ),
      ),
    )
