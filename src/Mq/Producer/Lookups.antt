-- ===== src/Mq/Producer/Lookups.antt =====
-- `queryLookupd`: it never runs out of addresses, and leaves a pool for each node it was told of.
use j7f.Base.{
  ℕ, zero, suc, ◌+◌, ◌%◌, ◌<◌, ◌≡◌, refl, sym, ◌∙◌, subst, inl, inr, true, ◌||◌, List, [], ◌∷◌,
  Option, some, Text, same_text, same_text_refl, same_text_iff, arith, length, get_elem?, All,
  Bool-cases, Option-cases,
}
use j7f.Mq.Producer.{
  Producer, MqError, with_pool, connect_to_nsqd, has_addr, wrapped_index, next_lookupd_addr,
  connect_all, query_tries, query_lookupd,
}
use j7f.Mq.Producer.Pools.{is_known, is_known-set_pool, connect_lem}

get_below : (xs : List Text) (k : ℕ) → k < length xs → (x : Text) × (get_elem? xs k ≡ some x)
get_below [] k h = absurd (omega arith)
get_below (x ∷ xs) zero h = (x, refl)
get_below (x ∷ xs) (suc k) h = get_below xs k (omega arith)

-- The next address is there, and the producer changes in its index only.
next_lem :
    {Conn : Type 0} (p : Producer Conn)
    → 0 < length p.lookupd_http_addrs
    → (i : ℕ) × (addr : Text) × (next_lookupd_addr p
        ≡ some (record p { lookupd_query_index = i }, addr))
unfolding next_lookupd_addr wrapped_index
next_lem p h =
    let num = length p.lookupd_http_addrs in
    let index = wrapped_index p.lookupd_query_index num in
    let (addr, e) = get_below p.lookupd_http_addrs index (ground arith) in
    ((index + 1) % num, addr, ground arith)

query_tries_total :
    {Conn : Type 0} (lookup : Text → Option (List Text)) (dial : Text → Conn × Option MqError)
    (pool_cap tries : ℕ) (p : Producer Conn)
    → 0 < length p.lookupd_http_addrs
    → (q : Producer Conn) × (query_tries lookup dial pool_cap tries p ≡ some q)
unfolding query_tries
query_tries_total lookup dial pool_cap zero p h = (p, refl)
query_tries_total lookup dial pool_cap (suc tries) p h =
    let (i, addr, e) = next_lem p h in
    elim (Option-cases (lookup addr)) [
      | inl f ↦
          let (q, g) =
            query_tries_total lookup dial pool_cap tries (record p { lookupd_query_index = i }) h in
          (q, ground arith)
      | inr (addrs, f) ↦ (
        record (connect_all dial pool_cap (record p { lookupd_query_index = i }) addrs) {
          nsqd_tcp_addrs = addrs;
        },
        ground arith,
      )
    ]

-- With an address of a lookup service at least, `queryLookupd` returns without a panic,
-- whatever the services and the nodes answer.
query_lookupd_total :
    {Conn : Type 0} (lookup : Text → Option (List Text)) (dial : Text → Conn × Option MqError)
    (pool_cap : ℕ) (p : Producer Conn)
    → 0 < length p.lookupd_http_addrs
    → (q : Producer Conn) × (query_lookupd lookup dial pool_cap p ≡ some q)
unfolding query_lookupd
query_lookupd_total lookup dial pool_cap p h = query_tries_total lookup dial pool_cap 3 p h

-- The addresses that `Publish` draws from have a pool each.
abbrev pub IsPooled : {Conn : Type 0} → Producer Conn → Type 0
IsPooled p = All (λ a. is_known a p.connections ≡ true) p.nsqd_tcp_addrs

connect_known :
    {Conn : Type 0} (dial : Text → Conn × Option MqError) (p : Producer Conn) (addr a : Text)
    (pool_cap : ℕ)
    → (same_text addr a || is_known a p.connections) ≡ true
    → is_known a (connect_to_nsqd dial p addr pool_cap).0.connections ≡ true
unfolding with_pool
connect_known dial p addr a pool_cap h = elim (connect_lem dial p addr pool_cap) [
  | inl (k, e) ↦
      let there : is_known a p.connections ≡ true = elim (Bool-cases (same_text addr a)) [
        | inl f ↦
            let same : addr ≡ a = (same_text_iff addr a).0 f in
            subst (λ x. is_known x p.connections ≡ true) same k
        | inr f ↦ ground arith
      ] in
      subst (λ r. is_known a r.connections ≡ true) (sym e) there
  | inr (pool, sound, e) ↦
      subst (λ r. is_known a r.connections ≡ true) (sym e)
        (is_known-set_pool a addr pool p.connections ∙ h)
]

connect_all_known :
    {Conn : Type 0} (dial : Text → Conn × Option MqError) (pool_cap : ℕ) (p : Producer Conn)
    (addrs : List Text) (a : Text)
    → (is_known a p.connections || has_addr a addrs) ≡ true
    → is_known a (connect_all dial pool_cap p addrs).connections ≡ true
unfolding connect_all
connect_all_known dial pool_cap p [] a h = ground arith
connect_all_known dial pool_cap p (addr ∷ addrs) a h =
    let next = (connect_to_nsqd dial p addr pool_cap).0 in
    let step : (is_known a next.connections || has_addr a addrs) ≡ true =
      elim (Bool-cases (has_addr a addrs)) [
        | inl e ↦ ground arith
        | inr e ↦ let now = connect_known dial p addr a pool_cap (ground arith) in ground arith
      ] in
    connect_all_known dial pool_cap next addrs a step

All-has_addr :
    (P : Text → Type 0) (xs : List Text) → ((a : Text) → has_addr a xs ≡ true → P a) → All P xs
All-has_addr P [] f = tt
All-has_addr P (x ∷ xs) f =
    (f x (ground (arith, same_text_refl x)), All-has_addr P xs (λ a k. f a (ground arith)))

query_tries-IsPooled :
    {Conn : Type 0} (lookup : Text → Option (List Text)) (dial : Text → Conn × Option MqError)
    (pool_cap tries : ℕ) (p q : Producer Conn)
    → 0 < length p.lookupd_http_addrs
    → IsPooled p
    → query_tries lookup dial pool_cap tries p ≡ some q
    → IsPooled q
unfolding query_tries
query_tries-IsPooled lookup dial pool_cap zero p q h k e =
    let same : p ≡ q = ground arith in subst IsPooled same k
query_tries-IsPooled lookup dial pool_cap (suc tries) p q h k e =
    let (i, addr, n) = next_lem p h in
    let next = record p { lookupd_query_index = i } in
    elim (Option-cases (lookup addr)) [
      | inl f ↦ query_tries-IsPooled lookup dial pool_cap tries next q h k (ground arith)
      | inr (addrs, f) ↦
          let connected = connect_all dial pool_cap next addrs in
          let same : record connected { nsqd_tcp_addrs = addrs } ≡ q = ground arith in
          subst IsPooled same (
            All-has_addr _ addrs
              (λ a t. connect_all_known dial pool_cap next addrs a (ground arith)))
    ]

-- With an address of a lookup service at least: if each address that `Publish` draws from has a
-- pool, then so it is after `queryLookupd`, whatever the services and the nodes answer.
pub query_lookupd-IsPooled :
    {Conn : Type 0} (lookup : Text → Option (List Text)) (dial : Text → Conn × Option MqError)
    (pool_cap : ℕ) (p q : Producer Conn)
    → 0 < length p.lookupd_http_addrs
    → IsPooled p
    → query_lookupd lookup dial pool_cap p ≡ some q
    → IsPooled q
unfolding query_lookupd
query_lookupd-IsPooled lookup dial pool_cap p q h k e =
    query_tries-IsPooled lookup dial pool_cap 3 p q h k e
