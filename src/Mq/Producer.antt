-- ===== src/Mq/Producer.antt =====
-- components/mq/producer.go: a producer with a pool of connections for each address. A connection is a
-- value of `Conn`; what the nsq library and the lookup service answer is a parameter. A call that would
-- wait for ever, or panic, is `none`.
pub mod Pools
pub mod Publishing
pub mod Lookups
pub mod Tests
use j7f.Base.{
  ℕ, zero, suc, ◌+◌, ◌%◌, Bool, true, false, not, ◌&&◌, ◌||◌, List, [], ◌∷◌, ◌++◌, Option, none,
  some, Text, same_text, codes, ltb, leb, ◌==◌, if◌then◌else◌, length, get_elem?, replicate, ◌⊎◌,
  inl, inr,
}

pub record ProducerPool (Conn : Type 0) : Type 0 where
  pub capacity : ℕ
  pub closed : Bool
  pub conns : List Conn

-- The map of connections is a list of its entries.
pub record Producer (Conn : Type 0) : Type 0 where
  pub lookupd_query_index : ℕ
  pub lookupd_http_addrs : List Text
  pub nsqd_tcp_addrs : List Text
  pub connections : List (Text × ProducerPool Conn)
  pub exited : Bool

pub data MqError : Type 0 where
  already_connected producer_not_exist pool_closed pool_filled : MqError
  nsq : ℕ → MqError

-- The map.
pub pool_at : {Conn : Type 0} → Text → List (Text × ProducerPool Conn) → Option (ProducerPool Conn)
pool_at addr [] = none
pool_at addr ((a, p) ∷ ps) = let rest = pool_at addr ps in if same_text a addr then some p else rest

pub set_pool :
    {Conn : Type 0}
    → Text
    → ProducerPool Conn
    → List (Text × ProducerPool Conn)
    → List (Text × ProducerPool Conn)
set_pool addr pool [] = (addr, pool) ∷ []
set_pool addr pool ((a, p) ∷ ps) =
    let rest = set_pool addr pool ps in if same_text a addr then (a, pool) ∷ ps else (a, p) ∷ rest

pub with_pool : {Conn : Type 0} → Producer Conn → Text → ProducerPool Conn → Producer Conn
unfolding set_pool
with_pool p addr pool = record p { connections = set_pool addr pool p.connections }

-- `NewProducer`.
new_producer : {Conn : Type 0} → Producer Conn
new_producer = record {
  lookupd_query_index = 0;
  lookupd_http_addrs = [];
  nsqd_tcp_addrs = [];
  connections = [];
  exited = false;
}

abbrev pub new_pool : {Conn : Type 0} → ℕ → List Conn → ProducerPool Conn
new_pool capacity conns = record { capacity = capacity; closed = false; conns = conns }

pub dialled :
    {Conn : Type 0}
    → Producer Conn
    → Text
    → ℕ
    → Conn × Option MqError
    → Producer Conn × Option MqError
dialled p addr pool_cap (conn, some e) = (with_pool p addr (new_pool pool_cap []), some e)
dialled p addr pool_cap (conn, none) =
    (with_pool p addr (new_pool pool_cap (replicate pool_cap conn)), none)

-- `ConnectToNSQD`, from what `nsq.NewProducer` answers: the pool is put into the map before.
pub connect_to_nsqd :
    {Conn : Type 0}
    → (Text → Conn × Option MqError)
    → Producer Conn
    → Text
    → ℕ
    → Producer Conn × Option MqError
connect_to_nsqd dial p addr pool_cap = elim (pool_at addr p.connections) [
  | some pool ↦ (p, some already_connected)
  | none ↦ dialled p addr pool_cap (dial addr)
]

-- `nextLookupdEndpoint`, up to the URL that is made of the address; without addresses it panics.
pub wrapped_index : ℕ → ℕ → ℕ
wrapped_index index num = if leb num index then 0 else index

pub next_lookupd_addr : {Conn : Type 0} → Producer Conn → Option (Producer Conn × Text)
unfolding wrapped_index
next_lookupd_addr p =
    let num = length p.lookupd_http_addrs in
    let index = wrapped_index p.lookupd_query_index num in
    elim (get_elem? p.lookupd_http_addrs index) [
      | none ↦ none
      | some addr ↦ some (record p { lookupd_query_index = (index + 1) % num }, addr)
    ]

-- The loop of `queryLookupd` over the addresses that the service names.
pub connect_all :
    {Conn : Type 0} → (Text → Conn × Option MqError) → ℕ → Producer Conn → List Text → Producer Conn
unfolding connect_to_nsqd
connect_all dial pool_cap p [] = p
connect_all dial pool_cap p (addr ∷ addrs) =
    connect_all dial pool_cap (connect_to_nsqd dial p addr pool_cap).0 addrs

-- `queryLookupd`, with so many tries left: `lookup` is the answer for an address, with the nodes'
-- joined addresses.
pub query_tries :
    {Conn : Type 0}
    → (Text → Option (List Text))
    → (Text → Conn × Option MqError)
    → ℕ
    → ℕ
    → Producer Conn
    → Option (Producer Conn)
query_tries lookup dial pool_cap zero p = some p
query_tries lookup dial pool_cap (suc tries) p = elim (next_lookupd_addr p) [
  | none ↦ none
  | some (next, addr) ↦ elim (lookup addr) [
    | none ↦ query_tries lookup dial pool_cap tries next
    | some addrs ↦
        let connected = connect_all dial pool_cap next addrs in
        some (record connected { nsqd_tcp_addrs = addrs })
  ]
]

pub query_lookupd :
    {Conn : Type 0}
    → (Text → Option (List Text))
    → (Text → Conn × Option MqError)
    → ℕ
    → Producer Conn
    → Option (Producer Conn)
query_lookupd lookup dial pool_cap p = query_tries lookup dial pool_cap 3 p

abbrev pub has_addr : Text → List Text → Bool
has_addr addr [] = false
has_addr addr (x ∷ xs) = same_text x addr || has_addr addr xs

-- `ConnectToNSQLookupd`, without the goroutine of `lookupdLoop`.
connect_to_lookupd :
    {Conn : Type 0}
    → (Text → Option (List Text))
    → (Text → Conn × Option MqError)
    → Producer Conn
    → Text
    → ℕ
    → Option (Producer Conn)
connect_to_lookupd lookup dial p addr pool_cap =
    let added = record p { lookupd_http_addrs = p.lookupd_http_addrs ++ addr ∷ [] } in
    if has_addr addr p.lookupd_http_addrs
    then some p
    else if length added.lookupd_http_addrs == 1
    then query_lookupd lookup dial pool_cap added
    else some added

-- `Close`: the connections that it stops, in order, are the second result. A pool or the exit channel
-- that is closed already panics.
pub close_pools :
    {Conn : Type 0}
    → List (Text × ProducerPool Conn)
    → Option (List (Text × ProducerPool Conn) × List Conn)
close_pools [] = some ([], [])
close_pools ((a, pool) ∷ ps) =
    let rest = close_pools ps in
    if pool.closed then none else elim rest [
      | none ↦ none
      | some (closed, stopped) ↦
          some ((a, record pool { closed = true; conns = [] }) ∷ closed, pool.conns ++ stopped)
    ]

pub close_producer : {Conn : Type 0} → Producer Conn → Option (Producer Conn × List Conn)
unfolding close_pools
close_producer p = elim (close_pools p.connections) [
  | none ↦ none
  | some (pools, stopped) ↦
      if p.exited then none else some (record p { connections = pools; exited = true }, stopped)
]

-- `getProducerConn`: `draw` is what `Intn` gives. A missing pool panics, and an empty one waits.
pub taken :
    {Conn : Type 0}
    → Producer Conn
    → Text
    → Option (ProducerPool Conn)
    → Option (MqError ⊎ (Producer Conn × Text × Conn))
taken p addr none = none
taken p addr (some pool) = if pool.closed then some (inl pool_closed) else elim pool.conns [
  | [] ↦ none
  | conn ∷ conns ↦ some (inr (with_pool p addr (record pool { conns = conns }), addr, conn))
]

pub get_producer_conn :
    {Conn : Type 0} → ℕ → Producer Conn → Option (MqError ⊎ (Producer Conn × Text × Conn))
unfolding taken
get_producer_conn draw p =
    if length p.nsqd_tcp_addrs == 0 || length p.connections == 0
    then some (inl producer_not_exist)
    else elim (get_elem? p.nsqd_tcp_addrs draw) [
      | none ↦ none
      | some addr ↦ taken p addr (pool_at addr p.connections)
    ]

-- `putProducerConn`: the last result says whether the connection is stopped.
pub put_producer_conn :
    {Conn : Type 0} → Text → Conn → Producer Conn → Option (Producer Conn × Option MqError × Bool)
put_producer_conn addr conn p = elim (pool_at addr p.connections) [
  | none ↦ none
  | some pool ↦
      if pool.closed
      then some (p, some pool_closed, false)
      else if ltb (length pool.conns) pool.capacity
      then some (with_pool p addr (record pool { conns = pool.conns ++ conn ∷ [] }), none, false)
      else some (p, some pool_filled, true)
]

-- The loop of `Publish`, with so many tries left: `send` is the answer to a try.
pub send_tries : (ℕ → Option MqError) → ℕ → ℕ → Option MqError
send_tries send retries zero = none
send_tries send retries (suc left) = elim (send retries) [
  | none ↦ none
  | some e ↦ if ltb (retries + 1) 3 then send_tries send (retries + 1) left else some e
]

-- `Publish`: in both branches behind the loop, the error is that of `putProducerConn`.
pub publish :
    {Conn : Type 0}
    → ℕ
    → (ℕ → Option MqError)
    → Producer Conn
    → Option (Producer Conn × Option MqError)
unfolding get_producer_conn put_producer_conn send_tries
publish draw send p = elim (get_producer_conn draw p) [
  | none ↦ none
  | some (inl e) ↦ some (p, some e)
  | some (inr (q, addr, conn)) ↦ elim (send_tries send 0 3) [
    | some e ↦ elim (put_producer_conn addr conn q) [
      | none ↦ none
      | some (r, err, b) ↦ some (r, err)
    ]
    | none ↦ elim (put_producer_conn addr conn q) [ none ↦ none | some (r, err, b) ↦ some (r, err) ]
  ]
]
