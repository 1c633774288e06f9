-- ===== src/Grpc/Client/Endpoints.antt =====
-- The connections that `Endpoint` gives and remembers.
use j7f.Base.{
  ℕ, ◌≡◌, refl, ap, sym, ◌∙◌, Bool, true, false, [], ◌∷◌, ◌++◌, Option, none, some, Text, same_text,
  same_text_refl, arith, if◌then◌else◌, Bool-cases, Option-cases, ◌⊎◌, inl, inr, subst,
}
use j7f.Base.Maps.{Map, find, put, find-put}
use j7f.Grpc.Client.{
  check_conn_status, insecure, Outside, GrpcClient, Endpoint, root_pool, tls_options, dialled,
  redialled, endpoint,
}

sum-cases : {A B : Type 0} (x : A ⊎ B) → ((a : A) × (x ≡ inl a)) ⊎ ((b : B) × (x ≡ inr b))
sum-cases (inl a) = inl (a, refl)
sum-cases (inr b) = inr (b, refl)

abbrev or_else : ℕ → Option ℕ → ℕ
or_else n none = n
or_else n (some k) = k

-- A connection that is returned is live and kept under its address; the other addresses keep theirs.
abbrev IsLive : Outside → Text → Map ℕ → Endpoint → Type 0
IsLive o addr conns e =
    ((k : ℕ)
      → e.conn ≡ some k
      → (e.error ≡ none)
        × (check_conn_status (o.get_state k) ≡ true)
        × (find addr e.conn_map ≡ some k))
    × ((j : Text) → same_text addr j ≡ false → find j e.conn_map ≡ find j conns)

none-IsLive :
    (o : Outside) (addr : Text) (c : GrpcClient) (conns : Map ℕ) (err : Option Text)
    → IsLive o addr conns (record { client = c; conn_map = conns; conn = none; error = err })
none-IsLive o addr c conns err = (λ k h. cc, λ j h. refl)

dialled-IsLive :
    (o : Outside) (addr : Text) (c : GrpcClient) (conns : Map ℕ)
    → IsLive o addr conns (dialled o addr c conns)
dialled-IsLive o addr c conns = elim (sum-cases (o.dial addr c.opts)) [
  | inl (err, e) ↦
      let is : dialled o addr c conns
          ≡ record { client = c; conn_map = conns; conn = none; error = some err } =
        unfold dialled in ground arith in
      subst (IsLive o addr conns) (sym is) (none-IsLive o addr c conns (some err))
  | inr (conn, e) ↦ elim (Bool-cases (check_conn_status (o.get_state conn))) [
    | inr f ↦
        let is : dialled o addr c conns
            ≡ record { client = c; conn_map = conns; conn = none; error = none } =
          unfold dialled in ground arith in
        subst (IsLive o addr conns) (sym is) (none-IsLive o addr c conns none)
    | inl f ↦
        let is : dialled o addr c conns ≡ record {
          client = record c { addr = addr; conn = some conn };
          conn_map = put addr conn conns;
          conn = some conn;
          error = none;
        } =
          unfold dialled in ground arith in
        let found = find-put addr addr conn conns in
        subst (IsLive o addr conns) (sym is) (
          λ k h.
              let same : conn ≡ k = ap (or_else 0) h in
              (
                refl,
                ground (arith, ap (λ x. check_conn_status (o.get_state x)) same),
                ground (arith, found, same_text_refl addr, same),
              ),
          λ j h. ground (arith, find-put j addr conn conns),
        )
  ]
]

redialled-IsLive :
    (o : Outside) (addr : Text) (use_tls : Bool) (cacert cert cert_key : Text) (c : GrpcClient)
    (conns : Map ℕ)
    → IsLive o addr conns (redialled o addr use_tls cacert cert cert_key c conns)
redialled-IsLive o addr use_tls cacert cert cert_key c conns = elim (Bool-cases use_tls) [
  | inr t ↦
      let is : redialled o addr use_tls cacert cert cert_key c conns
          ≡ dialled o addr (record c { opts = c.opts ++ insecure ∷ [] }) conns =
        unfold redialled in ground arith in
      subst (IsLive o addr conns) (sym is) (dialled-IsLive o addr _ conns)
  | inl t ↦ elim (sum-cases (tls_options o cacert cert cert_key)) [
    | inl (err, e) ↦
        let is : redialled o addr use_tls cacert cert cert_key c conns
            ≡ record { client = c; conn_map = conns; conn = none; error = err } =
          unfold redialled in ground arith in
        subst (IsLive o addr conns) (sym is) (none-IsLive o addr c conns err)
    | inr (opts, e) ↦
        let is : redialled o addr use_tls cacert cert cert_key c conns
            ≡ dialled o addr (record c { opts = c.opts ++ opts }) conns =
          unfold redialled in ground arith in
        subst (IsLive o addr conns) (sym is) (dialled-IsLive o addr _ conns)
  ]
]

-- A connection that is kept for the address and live is what is returned.
endpoint_kept :
    (o : Outside) (addr : Text) (use_tls : Bool) (cacert cert cert_key : Text) (c : GrpcClient)
    (conns : Map ℕ) (k : ℕ)
    → find addr conns ≡ some k
    → check_conn_status (o.get_state k) ≡ true
    → endpoint o addr use_tls cacert cert cert_key c conns
      ≡ record { client = c; conn_map = conns; conn = some k; error = none }
unfolding endpoint
endpoint_kept o addr use_tls cacert cert cert_key c conns k h l = ground arith

endpoint_anew :
    (o : Outside) (addr : Text) (use_tls : Bool) (cacert cert cert_key : Text) (c : GrpcClient)
    (conns : Map ℕ)
    → ((k : ℕ) → find addr conns ≡ some k → check_conn_status (o.get_state k) ≡ false)
    → endpoint o addr use_tls cacert cert cert_key c conns
      ≡ redialled o addr use_tls cacert cert cert_key c conns
unfolding endpoint
endpoint_anew o addr use_tls cacert cert cert_key c conns h =
    elim (Option-cases (find addr conns)) [
      | inl e ↦ ground arith
      | inr (k, e) ↦ ground (arith, h k e)
    ]

endpoint-IsLive :
    (o : Outside) (addr : Text) (use_tls : Bool) (cacert cert cert_key : Text) (c : GrpcClient)
    (conns : Map ℕ)
    → IsLive o addr conns (endpoint o addr use_tls cacert cert cert_key c conns)
endpoint-IsLive o addr use_tls cacert cert cert_key c conns =
    let anew : ((k : ℕ) → find addr conns ≡ some k → check_conn_status (o.get_state k) ≡ false)
        → IsLive o addr conns (endpoint o addr use_tls cacert cert cert_key c conns) =
      λ h.
        subst (IsLive o addr conns)
          (sym (endpoint_anew o addr use_tls cacert cert cert_key c conns h))
          (redialled-IsLive o addr use_tls cacert cert cert_key c conns) in
    elim (Option-cases (find addr conns)) [
      | inl e ↦ anew (λ k h. cc)
      | inr (k, e) ↦ elim (Bool-cases (check_conn_status (o.get_state k))) [
        | inr f ↦ anew (λ j h.
            ground
              (arith, ap (λ x. check_conn_status (o.get_state x)) (ap (or_else 0) (sym e ∙ h))))
        | inl f ↦
            let is = endpoint_kept o addr use_tls cacert cert cert_key c conns k e f in
            subst (IsLive o addr conns) (sym is) (
              λ j h.
                  let same : k ≡ j = ap (or_else 0) h in
                  (refl, ground (arith, ap (λ x. check_conn_status (o.get_state x)) same), e ∙ h),
              λ j h. refl,
            )
      ]
    ]

-- Where the kept connection is in a bad state by then, the address is dialled anew.
endpoint_bad :
    (o : Outside) (addr : Text) (use_tls : Bool) (cacert cert cert_key : Text) (c : GrpcClient)
    (conns : Map ℕ) (k : ℕ)
    → find addr conns ≡ some k
    → check_conn_status (o.get_state k) ≡ false
    → endpoint o addr use_tls cacert cert cert_key c conns
      ≡ redialled o addr use_tls cacert cert cert_key c conns
unfolding endpoint
endpoint_bad o addr use_tls cacert cert cert_key c conns k h l = ground arith

-- Where `Endpoint` returns a connection, it comes with a nil error, is not in a bad state then
-- and is kept under its address, and any other address keeps its own. Whatever has changed
-- outside until a second call for the address, with TLS or without: this returns the same
-- connection and changes nothing where the connection is not in a bad state by then, and dials
-- anew where it is.
pub endpoint_lem :
    (o later : Outside) (addr : Text) (use_tls again : Bool) (cacert cert cert_key : Text)
    (c : GrpcClient) (conns : Map ℕ) (k : ℕ) (j : Text)
    → (endpoint o addr use_tls cacert cert cert_key c conns).conn ≡ some k
    → same_text addr j ≡ false
    → let e = endpoint o addr use_tls cacert cert cert_key c conns in
      (e.error ≡ none)
      × (check_conn_status (o.get_state k) ≡ true)
      × (find addr e.conn_map ≡ some k)
      × (find j e.conn_map ≡ find j conns)
      × (endpoint later addr again cacert cert cert_key e.client e.conn_map ≡ (
          if check_conn_status (later.get_state k)
          then record { client = e.client; conn_map = e.conn_map; conn = some k; error = none }
          else redialled later addr again cacert cert cert_key e.client e.conn_map))
endpoint_lem o later addr use_tls again cacert cert cert_key c conns k j h d =
    let e = endpoint o addr use_tls cacert cert cert_key c conns in
    let (live, others) = endpoint-IsLive o addr use_tls cacert cert cert_key c conns in
    let (error, ok, found) = live k h in
    (
      error,
      ok,
      found,
      others j d,
      elim (Bool-cases (check_conn_status (later.get_state k))) [
        | inl f ↦ ground (
          arith,
          endpoint_kept later addr again cacert cert cert_key e.client e.conn_map k found f,
        )
        | inr f ↦ ground (
          arith,
          endpoint_bad later addr again cacert cert cert_key e.client e.conn_map k found f,
        )
      ],
    )

-- For an address with no connection: where the dialled connection is in a bad state, `Endpoint`
-- without TLS returns neither a connection nor an error, and so it does with TLS where no
-- certificate of the file is taken.
endpoint_silent :
    (o : Outside) (addr cacert cert cert_key pem : Text) (c : GrpcClient) (conns : Map ℕ) (conn : ℕ)
    → find addr conns ≡ none
    → same_text cacert [] ≡ false
    → o.read_file cacert ≡ inr pem
    → o.appends_certs pem ≡ false
    → o.dial addr (c.opts ++ insecure ∷ []) ≡ inr conn
    → check_conn_status (o.get_state conn) ≡ false
    → let plain = endpoint o addr false cacert cert cert_key c conns in
      let secure = endpoint o addr true cacert cert cert_key c conns in
      ((plain.conn ≡ none) × (plain.error ≡ none)) × ((secure.conn ≡ none) × (secure.error ≡ none))
unfolding endpoint redialled dialled tls_options root_pool
endpoint_silent o addr cacert cert cert_key pem c conns conn a b d e f g =
    ((ground arith, ground arith), (ground arith, ground arith))
