-- ===== src/Mq/Producer/Pools.antt =====
-- The map of pools, and what every operation keeps of it.
use j7f.Base.{
  ℕ, ◌≤◌, ◌≡◌, refl, sym, ap, ◌∙◌, subst, ◌⊎◌, inl, inr, Bool, true, false, ◌||◌, List, [], ◌∷◌,
  ◌++◌, Option, none, some, Text, same_text, same_text_iff, same_text_refl, arith, ltb, ◌==◌,
  length, length-append, length-replicate, replicate, get_elem?, All, Bool-cases, Option-cases,
}
use j7f.Mq.Producer.{
  ProducerPool, Producer, MqError, new_pool, dialled, pool_at, set_pool, with_pool, connect_to_nsqd,
  taken, get_producer_conn, put_producer_conn, send_tries, publish,
}

pub pool_at-set_pool :
    {Conn : Type 0} (addr : Text) (pool : ProducerPool Conn) (ps : List (Text × ProducerPool Conn))
    → pool_at addr (set_pool addr pool ps) ≡ some pool
unfolding pool_at set_pool
pool_at-set_pool addr pool [] = ground (arith, same_text_refl addr)
pool_at-set_pool addr pool ((a, p) ∷ ps) = ground (arith, pool_at-set_pool addr pool ps)

-- Whether an address has a pool.
abbrev pub is_known : {Conn : Type 0} → Text → List (Text × ProducerPool Conn) → Bool
is_known addr ps = elim (pool_at addr ps) [ none ↦ false | some p ↦ true ]

pub is_known-set_pool :
    {Conn : Type 0} (a addr : Text) (pool : ProducerPool Conn)
    (ps : List (Text × ProducerPool Conn))
    → is_known a (set_pool addr pool ps) ≡ (same_text addr a || is_known a ps)
unfolding pool_at set_pool
is_known-set_pool a addr pool [] = ground arith
is_known-set_pool a addr pool ((k, p) ∷ ps) = elim (Bool-cases (same_text k addr)) [
  | inl e ↦
      let same : k ≡ addr = (same_text_iff k addr).0 e in
      let like : same_text k a ≡ same_text addr a = ap (λ x. same_text x a) same in
      ground (arith, like)
  | inr e ↦ ground (arith, is_known-set_pool a addr pool ps)
]

-- A pool holds no more connections than it has places, and a closed one none.
pub record IsSound {Conn : Type 0} (pool : ProducerPool Conn) : Type 0 where
  pub fits : length pool.conns ≤ pool.capacity
  pub empty : pool.closed ≡ true → pool.conns ≡ []

abbrev AreSound : {Conn : Type 0} → List (Text × ProducerPool Conn) → Type 0
AreSound = All (λ e. IsSound e.1)

abbrev pub IsWf : {Conn : Type 0} → Producer Conn → Type 0
IsWf p = AreSound p.connections

set_pool-AreSound :
    {Conn : Type 0} (addr : Text) (pool : ProducerPool Conn) (ps : List (Text × ProducerPool Conn))
    → IsSound pool
    → AreSound ps
    → AreSound (set_pool addr pool ps)
unfolding set_pool
set_pool-AreSound addr pool [] h k = (h, tt)
set_pool-AreSound addr pool ((a, p) ∷ ps) h k = elim (Bool-cases (same_text a addr)) [
  | inl e ↦ rw e (h, k.1)
  | inr e ↦ rw e (k.0, set_pool-AreSound addr pool ps h k.1)
]

pool_at-IsSound :
    {Conn : Type 0} (addr : Text) (pool : ProducerPool Conn) (ps : List (Text × ProducerPool Conn))
    → AreSound ps
    → pool_at addr ps ≡ some pool
    → IsSound pool
unfolding pool_at
pool_at-IsSound addr pool [] k e = cc
pool_at-IsSound addr pool ((a, p) ∷ ps) k e = elim (Bool-cases (same_text a addr)) [
  | inl h ↦ let q : p ≡ pool = ground arith in subst IsSound q k.0
  | inr h ↦ pool_at-IsSound addr pool ps k.1 (ground arith)
]

-- What `ConnectToNSQD` does to the map.
dialled_lem :
    {Conn : Type 0} (p : Producer Conn) (addr : Text) (pool_cap : ℕ) (d : Conn × Option MqError)
    → (pool : ProducerPool Conn) × IsSound pool
      × ((dialled p addr pool_cap d).0 ≡ with_pool p addr pool)
unfolding dialled
dialled_lem p addr pool_cap (conn, some e) =
    (new_pool pool_cap [], record { fits = omega arith; empty = λ c. refl }, refl)
dialled_lem p addr pool_cap (conn, none) = (
  new_pool pool_cap (replicate pool_cap conn),
  record { fits = omega (arith, length-replicate pool_cap conn); empty = λ c. cc c },
  refl,
)

pub connect_lem :
    {Conn : Type 0} (dial : Text → Conn × Option MqError) (p : Producer Conn) (addr : Text)
    (pool_cap : ℕ)
    → ((is_known addr p.connections ≡ true) × ((connect_to_nsqd dial p addr pool_cap).0 ≡ p))
      ⊎ ((pool : ProducerPool Conn) × IsSound pool
          × ((connect_to_nsqd dial p addr pool_cap).0 ≡ with_pool p addr pool))
unfolding connect_to_nsqd
connect_lem dial p addr pool_cap = elim (Option-cases (pool_at addr p.connections)) [
  | inr (pool, e) ↦ inl (ground arith, ground arith)
  | inl e ↦
      let (pool, sound, f) = dialled_lem p addr pool_cap (dial addr) in
      let new : connect_to_nsqd dial p addr pool_cap ≡ dialled p addr pool_cap (dial addr) =
        ground arith in
      inr (pool, sound, ap (λ r. r.0) new ∙ f)
]

connect-IsWf :
    {Conn : Type 0} (dial : Text → Conn × Option MqError) (p : Producer Conn) (addr : Text)
    (pool_cap : ℕ)
    → IsWf p
    → IsWf (connect_to_nsqd dial p addr pool_cap).0
unfolding with_pool
connect-IsWf dial p addr pool_cap h = elim (connect_lem dial p addr pool_cap) [
  | inl (k, e) ↦ subst IsWf (sym e) h
  | inr (pool, sound, e) ↦ subst IsWf (sym e) (set_pool-AreSound addr pool p.connections sound h)
]

put-IsWf :
    {Conn : Type 0} (addr : Text) (conn : Conn) (p q : Producer Conn) (err : Option MqError)
    (b : Bool)
    → IsWf p
    → put_producer_conn addr conn p ≡ some (q, err, b)
    → IsWf q
unfolding put_producer_conn with_pool
put-IsWf addr conn p q err b h e = elim (Option-cases (pool_at addr p.connections)) [
  | inl f ↦ ground arith
  | inr (pool, f) ↦ elim (Bool-cases pool.closed) [
    | inl g ↦ let same : p ≡ q = ground arith in subst IsWf same h
    | inr g ↦ elim (Bool-cases (ltb (length pool.conns) pool.capacity)) [
      | inl k ↦
          let back = record pool { conns = pool.conns ++ conn ∷ [] } in
          let sound : IsSound back = record {
            fits = ground (arith, length-append pool.conns (conn ∷ []));
            empty = λ c. cc (c, g);
          } in
          let same : with_pool p addr back ≡ q = ground arith in
          subst IsWf same (set_pool-AreSound addr back p.connections sound h)
      | inr k ↦ let same : p ≡ q = ground arith in subst IsWf same h
    ]
  ]
]

taken_open :
    {Conn : Type 0} (p q : Producer Conn) (addr a : Text) (conn : Conn) (pool : ProducerPool Conn)
    (conns : List Conn)
    → IsWf p
    → IsSound pool
    → pool.closed ≡ false
    → pool.conns ≡ conns
    → taken p addr (some pool) ≡ some (inr (q, a, conn))
    → IsWf q
unfolding taken with_pool
taken_open p q addr a conn pool [] h s g k e = ground arith
taken_open p q addr a conn pool (c ∷ conns) h s g k e =
    let rest = record pool { conns = conns } in
    let fits = s.fits in
    let sound : IsSound rest = record {
      fits = omega (arith, ap length k);
      empty = λ c. cc (c, g);
    } in
    let same : with_pool p addr rest ≡ q = ground arith in
    subst IsWf same (set_pool-AreSound addr rest p.connections sound h)

taken-IsWf :
    {Conn : Type 0} (p q : Producer Conn) (addr a : Text) (conn : Conn) (pool : ProducerPool Conn)
    → IsWf p
    → IsSound pool
    → taken p addr (some pool) ≡ some (inr (q, a, conn))
    → IsWf q
unfolding taken with_pool
taken-IsWf p q addr a conn pool h s e = elim (Bool-cases pool.closed) [
  | inl g ↦ ground arith
  | inr g ↦ taken_open p q addr a conn pool pool.conns h s g refl e
]

get-IsWf :
    {Conn : Type 0} (draw : ℕ) (p q : Producer Conn) (a : Text) (conn : Conn)
    → IsWf p
    → get_producer_conn draw p ≡ some (inr (q, a, conn))
    → IsWf q
unfolding get_producer_conn
get-IsWf draw p q a conn h e =
    elim (Bool-cases (length p.nsqd_tcp_addrs == 0 || length p.connections == 0)) [
      | inl z ↦ ground arith
      | inr z ↦ elim (Option-cases (get_elem? p.nsqd_tcp_addrs draw)) [
        | inl f ↦ ground arith
        | inr (addr, f) ↦ elim (Option-cases (pool_at addr p.connections)) [
          | inl g ↦ unfold taken in ground arith
          | inr (pool, g) ↦
              let k : taken p addr (some pool) ≡ some (inr (q, a, conn)) = ground arith in
              taken-IsWf p q addr a conn pool h (pool_at-IsSound addr pool p.connections h g) k
        ]
      ]
    ]

-- If no pool has more connections than its capacity, and no closed one has any, then so it is
-- in what `Publish` leaves, however it ends.
publish-IsWf :
    {Conn : Type 0} (draw : ℕ) (send : ℕ → Option MqError) (p q : Producer Conn)
    (err : Option MqError)
    → IsWf p
    → publish draw send p ≡ some (q, err)
    → IsWf q
unfolding publish
publish-IsWf draw send p q err h e = elim (Option-cases (get_producer_conn draw p)) [
  | inl f ↦ ground arith
  | inr (inl x, f) ↦ let same : p ≡ q = ground arith in subst IsWf same h
  | inr (inr (p', addr, conn), f) ↦
      let wf = get-IsWf draw p p' addr conn h f in
      elim (Option-cases (put_producer_conn addr conn p')) [
        | inl g ↦ elim (Option-cases (send_tries send 0 3)) [
          | inl k ↦ ground arith
          | inr (y, k) ↦ ground arith
        ]
        | inr ((r, err', b), g) ↦
            let same : r ≡ q = elim (Option-cases (send_tries send 0 3)) [
              | inl k ↦ ground arith
              | inr (y, k) ↦ ground arith
            ] in
            subst IsWf same (put-IsWf addr conn p' r err' b wf g)
      ]
]
