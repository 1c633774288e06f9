-- ===== src/Mq/Producer/Tests.antt =====
-- A producer with one pool.
use j7f.Base.{ℕ, ◌≡◌, refl, false, List, [], ◌∷◌, Option, none, some, Text, codes, arith}
use j7f.Mq.Producer.{
  ProducerPool, Producer, MqError, nsq, already_connected, pool_at, set_pool, publish,
  connect_to_nsqd, query_lookupd, new_pool, dialled, connect_all, next_lookupd_addr, wrapped_index,
  query_tries, get_producer_conn, taken, put_producer_conn, send_tries, with_pool,
}
use j7f.Mq.Producer.Pools.{IsWf}
use j7f.Mq.Producer.Publishing.{publish_lem, failed_connect}
use j7f.Mq.Producer.Lookups.{IsPooled, query_lookupd-IsPooled}

abbrev a_pool : ProducerPool ℕ
a_pool = record { capacity = 2; closed = false; conns = 7 ∷ 8 ∷ [] }

abbrev a_producer : Producer ℕ
a_producer = record {
  lookupd_query_index = 0;
  lookupd_http_addrs = codes "l" ∷ [];
  nsqd_tcp_addrs = codes "a" ∷ [];
  connections = (codes "a", a_pool) ∷ [];
  exited = false;
}

abbrev no_dial : Text → ℕ × Option MqError
no_dial addr = (0, some (nsq 1))

a_producer-IsWf : IsWf a_producer
a_producer-IsWf = (record { fits = omega arith; empty = λ c. cc c }, tt)

-- The second connection is now in front.
abbrev published : Producer ℕ
published = record a_producer {
  connections = (codes "a", record a_pool { conns = 8 ∷ 7 ∷ [] }) ∷ [];
}

publish_once : publish 0 (λ i. none) a_producer ≡ some (published, none)
unfolding publish get_producer_conn taken put_producer_conn send_tries with_pool set_pool pool_at
publish_once = refl

publish_lem_example :
    (q : Producer ℕ) × (publish 0 (λ i. some (nsq i)) a_producer ≡ some (q, none))
    × (pool_at (codes "a") q.connections ≡ some (record a_pool { conns = 8 ∷ 7 ∷ [] }))
unfolding pool_at
publish_lem_example =
    publish_lem a_producer 0 (λ i. some (nsq i)) (codes "a") a_pool 7 (8 ∷ []) refl refl refl refl
      (omega arith)

abbrev unconnected : Producer ℕ
unconnected = record a_producer { connections = [] }

failed_connect_example :
    (q : Producer ℕ) × (connect_to_nsqd no_dial unconnected (codes "a") 3 ≡ (q, some (nsq 1)))
    × (connect_to_nsqd no_dial q (codes "a") 3 ≡ (q, some already_connected))
    × (get_producer_conn 0 q ≡ none)
unfolding pool_at
failed_connect_example = failed_connect no_dial unconnected (codes "a") 3 0 0 (nsq 1) refl refl refl

abbrev told_b : Text → Option (List Text)
told_b a = some (codes "b" ∷ [])

abbrev queried : Producer ℕ
queried = record a_producer {
  nsqd_tcp_addrs = codes "b" ∷ [];
  connections = (codes "a", a_pool) ∷ (codes "b", new_pool 1 (9 ∷ [])) ∷ [];
}

query_once : query_lookupd told_b (λ a. (9, none)) 1 a_producer ≡ some queried
unfolding query_lookupd query_tries next_lookupd_addr wrapped_index connect_all connect_to_nsqd
    dialled with_pool set_pool pool_at
query_once = refl

query_lookupd-IsPooled_example : IsPooled queried
unfolding pool_at
query_lookupd-IsPooled_example =
    query_lookupd-IsPooled told_b (λ a. (9, none)) 1 a_producer queried (omega arith) (refl, tt)
      query_once
