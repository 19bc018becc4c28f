-- ===== src/Balance/Hash.antt =====
-- HashLoadBalancer.java and KeyHashRobinRule.java: the choice by the hash of a key. The hash is an
-- argument, an int of 32 bits as its two's complement, and so is the choice of the default rule.
use mq_kafka.Prelude.{
  ℕ, ◌-◌, ◌%◌, ◌<◌, ◌≢◌, ◌≡◌, ◌⊎◌, refl, ap, inl, inr, Bool, true, false, Bool-cases, Option, none,
  some, List, [], ◌∷◌, length, ◌==◌, ltb, if◌then◌else◌, arith,
}
use mq_kafka.Balance.{get_elem?}

-- `index`: `Math.abs(hash) % size`. The absolute value of the least int is itself, so that `%` is
-- not above 0; `none` means a negative index.
unfoldable pub key_index : ℕ → ℕ → Option ℕ
key_index hash size =
    if ltb hash 2147483648
    then some (hash % size)
    else if hash == 2147483648
    then (if 2147483648 % size == 0 then some 0 else none)
    else some ((4294967296 - hash) % size)

-- What `HashLoadBalancer.get` answers.
pub data Choice : Type 0 where
  null exception : Choice
  target : ℕ → Choice

abbrev chosen_target : Option ℕ → Choice
chosen_target none = exception
chosen_target (some t) = target t

abbrev at_index : Option ℕ → List ℕ → Choice
at_index none ts = exception
at_index (some i) ts = chosen_target (get_elem? i ts)

-- `HashLoadBalancer.get`
unfoldable pub get : ℕ → List ℕ → Choice
unfolding key_index
get hash [] = null
get hash (t ∷ ts) = at_index (key_index hash (length (t ∷ ts))) (t ∷ ts)

-- A server of the rule, and whether it is alive and ready.
pub record Server : Type 0 where
  pub id : ℕ
  pub is_healthy : Bool

-- The loop of `chooseServer`, which looks at the server that it has.
scan : List Server → Server → Server
scan [] server = server
scan (srv ∷ srvs) server = scan srvs (if server.is_healthy then srv else server)

abbrev unless_healthy : List Server → Option Server → Option Server
unless_healthy srvs none = none
unless_healthy srvs (some server) = some (if server.is_healthy then server else scan srvs server)

abbrev server_at : Option ℕ → List Server → Option Server
server_at none servers = none
server_at (some i) servers = get_elem? i servers

-- The exception of a negative index is caught, with the server still null.
choose_server : ℕ → List Server → Option Server
unfolding scan key_index
choose_server hash [] = none
choose_server hash (s ∷ ss) =
    unless_healthy (s ∷ ss) (server_at (key_index hash (length (s ∷ ss))) (s ∷ ss))

abbrev or_default : Option Server → Option Server → Option Server
or_default default none = default
or_default default (some server) = some server

-- `choose`, for the reachable servers and the choice of the default rule.
pub choose : Option Server → ℕ → List Server → Option Server
unfolding choose_server
choose default hash [] = none
choose default hash (s ∷ []) = some s
choose default hash (s ∷ t ∷ ss) = or_default default (choose_server hash (s ∷ t ∷ ss))

-- The index of a key is one of the list's, and otherwise the hash is the least int and the list's
-- length does not divide it.
pub key_index_cases :
    (hash size : ℕ)
    → hash < 4294967296
    → 0 < size
    → ((i : ℕ) × (i < size) × (key_index hash size ≡ some i))
      ⊎ ((hash ≡ 2147483648) × (2147483648 % size ≢ 0) × (key_index hash size ≡ none))
unfolding key_index
key_index_cases hash size l p = elim (Bool-cases (ltb hash 2147483648)) [
  | inl low ↦ inl (hash % size, ground arith, rw low refl)
  | inr high ↦ elim (Bool-cases (hash == 2147483648)) [
    | inr other ↦ inl ((4294967296 - hash) % size, ground arith, rw (high, other) refl)
    | inl least ↦ elim (Bool-cases (2147483648 % size == 0)) [
      | inl even ↦ inl (0, p, rw (high, least, even) refl)
      | inr odd ↦ inr (ground arith, λ e. ground arith, rw (high, least, odd) refl)
    ]
  ]
]

scan-unhealthy :
    (srvs : List Server) (n : ℕ)
    → scan srvs (record { id = n; is_healthy = false }) ≡ record { id = n; is_healthy = false }
unfolding scan
scan-unhealthy [] n = refl
scan-unhealthy (srv ∷ srvs) n = scan-unhealthy srvs n

unless_healthy-some :
    (srvs : List Server) (n : ℕ) (b : Bool)
    → unless_healthy srvs (some (record { id = n; is_healthy = b }))
      ≡ some (record { id = n; is_healthy = b })
unless_healthy-some srvs n true = refl
unless_healthy-some srvs n false = ap some (scan-unhealthy srvs n)

unless_healthy-id : (srvs : List Server) (o : Option Server) → unless_healthy srvs o ≡ o
unless_healthy-id srvs none = refl
unless_healthy-id srvs (some server) = unless_healthy-some srvs server.id server.is_healthy

-- With more than one reachable server the rule takes the one that the hash names, whether it is
-- alive and ready or not, and whatever the others are; the default rule chooses only if the index
-- is negative.
pub choose-server_at :
    (default : Option Server) (hash : ℕ) (s t : Server) (ss : List Server)
    → let servers = s ∷ t ∷ ss in
      choose default hash servers
      ≡ or_default default (server_at (key_index hash (length servers)) servers)
unfolding choose choose_server
choose-server_at default hash s t ss =
    let servers = s ∷ t ∷ ss in
    ap (or_default default)
      (unless_healthy-id servers (server_at (key_index hash (length servers)) servers))
