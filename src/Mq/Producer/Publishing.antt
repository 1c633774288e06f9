-- ===== src/Mq/Producer/Publishing.antt =====
-- `Publish` and `Close`: where the connections go, and what is reported.
use j7f.Base.{
  ℕ, ◌≤◌, ◌<◌, ◌≡◌, refl, ap, ◌∙◌, inl, inr, true, false, List, [], ◌∷◌, ◌++◌, Option, none, some,
  Text, arith, ◌==◌, length, get_elem?, All, Option-cases,
}
use j7f.Mq.Producer.{
  ProducerPool, Producer, MqError, already_connected, new_pool, dialled, connect_to_nsqd, pool_at,
  with_pool, close_pools, close_producer, taken, get_producer_conn, put_producer_conn, send_tries,
  publish,
}
use j7f.Mq.Producer.Pools.{pool_at-set_pool}

nonempty_addrs :
    (xs : List Text) (k : ℕ) (a : Text) → get_elem? xs k ≡ some a → (length xs == 0) ≡ false
nonempty_addrs [] k a h = cc
nonempty_addrs (x ∷ xs) k a h = ground arith

nonempty_pools :
    {Conn : Type 0} (a : Text) (pool : ProducerPool Conn) (ps : List (Text × ProducerPool Conn))
    → pool_at a ps ≡ some pool
    → (length ps == 0) ≡ false
unfolding pool_at
nonempty_pools a pool [] h = cc
nonempty_pools a pool (x ∷ ps) h = ground arith

module _ {Conn : Type 0} (p : Producer Conn) (draw : ℕ) (addr : Text)
    (pool : ProducerPool Conn) where
  get_lem :
      (conn : Conn) (conns : List Conn)
      → get_elem? p.nsqd_tcp_addrs draw ≡ some addr
      → pool_at addr p.connections ≡ some pool
      → pool.closed ≡ false
      → pool.conns ≡ conn ∷ conns
      → get_producer_conn draw p
        ≡ some (inr (with_pool p addr (record pool { conns = conns }), addr, conn))
  unfolding get_producer_conn taken
  get_lem conn conns a b c d =
      ground (
        arith,
        nonempty_addrs p.nsqd_tcp_addrs draw addr a,
        nonempty_pools addr pool p.connections b,
      )

put_lem :
    {Conn : Type 0} (p : Producer Conn) (addr : Text) (pool : ProducerPool Conn) (conn : Conn)
    → pool.closed ≡ false
    → length pool.conns < pool.capacity
    → (q : Producer Conn) × (put_producer_conn addr conn (with_pool p addr pool)
        ≡ some (q, none, false))
      × (pool_at addr q.connections ≡ some (record pool { conns = pool.conns ++ conn ∷ [] }))
unfolding put_producer_conn with_pool
put_lem p addr pool conn c l =
    let mid = with_pool p addr pool in
    let back = record pool { conns = pool.conns ++ conn ∷ [] } in
    let there = pool_at-set_pool addr pool p.connections in
    (with_pool mid addr back, ground arith, pool_at-set_pool addr back mid.connections)

-- Where the drawn address has an open pool, not above its capacity, with a connection in front,
-- `Publish` returns a nil error, whatever the tries of sending answer, and the connection is
-- the last of the pool.
pub publish_lem :
    {Conn : Type 0} (p : Producer Conn) (draw : ℕ) (send : ℕ → Option MqError) (addr : Text)
    (pool : ProducerPool Conn) (conn : Conn) (conns : List Conn)
    → get_elem? p.nsqd_tcp_addrs draw ≡ some addr
    → pool_at addr p.connections ≡ some pool
    → pool.closed ≡ false
    → pool.conns ≡ conn ∷ conns
    → length pool.conns ≤ pool.capacity
    → (q : Producer Conn) × (publish draw send p ≡ some (q, none))
      × (pool_at addr q.connections ≡ some (record pool { conns = conns ++ conn ∷ [] }))
unfolding publish
publish_lem p draw send addr pool conn conns a b c d l =
    let got = get_lem p draw addr pool conn conns a b c d in
    let (q, put, there) =
      put_lem p addr (record pool { conns = conns }) conn c (omega (arith, ap length d)) in
    let sent : publish draw send p ≡ some (q, none) = elim (Option-cases (send_tries send 0 3)) [
      | inl k ↦ ground arith
      | inr (y, k) ↦ ground arith
    ] in
    (q, sent, there)

-- All connections in the pools, in their order.
abbrev pub pooled : {Conn : Type 0} → List (Text × ProducerPool Conn) → List Conn
pooled [] = []
pooled ((a, pool) ∷ ps) = pool.conns ++ pooled ps

abbrev pub AreOpen : {Conn : Type 0} → List (Text × ProducerPool Conn) → Type 0
AreOpen = All (λ e. e.1.closed ≡ false)

close_pools_lem :
    {Conn : Type 0} (ps : List (Text × ProducerPool Conn))
    → AreOpen ps
    → (qs : List (Text × ProducerPool Conn)) × (close_pools ps ≡ some (qs, pooled ps))
      × All (λ e. (e.1.closed ≡ true) × (e.1.conns ≡ [])) qs
unfolding close_pools
close_pools_lem [] h = ([], refl, tt)
close_pools_lem ((a, pool) ∷ ps) h =
    let (qs, e, all) = close_pools_lem ps h.1 in
    let open_ : pool.closed ≡ false = h.0 in
    ((a, record pool { closed = true; conns = [] }) ∷ qs, ground arith, ((refl, refl), all))

close_again : {Conn : Type 0} (p : Producer Conn) → p.exited ≡ true → close_producer p ≡ none
unfolding close_producer
close_again p h = elim (Option-cases (close_pools p.connections)) [
  | inl e ↦ ground arith
  | inr ((qs, s), e) ↦ ground arith
]

-- With every pool and the exit channel open, `Close` stops exactly the connections in the
-- pools, in their order, closes and empties every pool, and a second `Close` panics.
close_lem :
    {Conn : Type 0} (p : Producer Conn)
    → AreOpen p.connections
    → p.exited ≡ false
    → (q : Producer Conn) × (close_producer p ≡ some (q, pooled p.connections))
      × All (λ e. (e.1.closed ≡ true) × (e.1.conns ≡ [])) q.connections
      × (close_producer q ≡ none)
unfolding close_producer
close_lem p h e =
    let (qs, f, all) = close_pools_lem p.connections h in
    let q = record p { connections = qs; exited = true } in
    (q, ground arith, all, close_again q refl)

-- If an address has no pool and nsq gives an error for it, `ConnectToNSQD` returns that error,
-- a second call answers that the address is connected already, and where the address is drawn
-- `getProducerConn` never returns.
pub failed_connect :
    {Conn : Type 0} (dial : Text → Conn × Option MqError) (p : Producer Conn) (addr : Text)
    (pool_cap draw : ℕ) (conn : Conn) (err : MqError)
    → pool_at addr p.connections ≡ none
    → dial addr ≡ (conn, some err)
    → get_elem? p.nsqd_tcp_addrs draw ≡ some addr
    → (q : Producer Conn) × (connect_to_nsqd dial p addr pool_cap ≡ (q, some err))
      × (connect_to_nsqd dial q addr pool_cap ≡ (q, some already_connected))
      × (get_producer_conn draw q ≡ none)
unfolding connect_to_nsqd dialled with_pool get_producer_conn taken
failed_connect dial p addr pool_cap draw conn err a b c =
    let q = with_pool p addr (new_pool pool_cap []) in
    let there : pool_at addr q.connections ≡ some (new_pool pool_cap []) =
      pool_at-set_pool addr (new_pool pool_cap []) p.connections in
    let first : connect_to_nsqd dial p addr pool_cap ≡ dialled p addr pool_cap (dial addr) =
      ground arith in
    (
      q,
      first ∙ ap (dialled p addr pool_cap) b,
      ground arith,
      ground (
        arith,
        nonempty_addrs p.nsqd_tcp_addrs draw addr c,
        nonempty_pools addr (new_pool pool_cap []) q.connections there,
      ),
    )
