-- ===== src/Grpc/Server/Started.antt =====
-- The callbacks that run when the server is made.
use j7f.Base.{
  ℕ, ◌≡◌, refl, ap, sym, ◌∙◌, List, [], ◌∷◌, ◌++◌, Option, none, some, Text, arith, Option-cases,
  inl, inr, All, subst,
}
use j7f.Base.Maps.{Map, find, find-put}
use j7f.Grpc.Server.{
  GrpcServer, MethodInfo, ServiceInfo, copied_methods, get_services_info, call_all, new_serv,
}

-- The functions called are the first ones, up to the end or to the first that gives an error.
abbrev pub IsFirst : (ℕ → Option Text) → List ℕ → List ℕ × Option Text → Type 0
IsFirst result fs r =
    (rest : List ℕ) × (r.0 ++ rest ≡ fs)
    × (r.1 ≡ none → (rest ≡ []) × All (λ f. result f ≡ none) fs)
    × ((err : Text)
        → r.1 ≡ some err
        → (before : List ℕ) × (f : ℕ) × (r.0 ≡ before ++ f ∷ [])
          × All (λ g. result g ≡ none) before
          × (result f ≡ some err))

call_all-IsFirst : (result : ℕ → Option Text) (fs : List ℕ) → IsFirst result fs (call_all result fs)
unfolding call_all
call_all-IsFirst result [] = ([], refl, (λ h. (refl, tt)), (λ err h. cc))
call_all-IsFirst result (f ∷ fs) =
    let (rest, split, well, ill) = call_all-IsFirst result fs in
    let called = (call_all result fs).0 in
    let error = (call_all result fs).1 in
    elim (Option-cases (result f)) [
      | inl e ↦
          let is : call_all result (f ∷ fs) ≡ (f ∷ called, error) = ground arith in
          subst (IsFirst result (f ∷ fs)) (sym is) (
            rest,
            ap (λ gs. f ∷ gs) split,
            λ h. ((well h).0, (e, (well h).1)),
            λ err h.
                let (before, g, last, none_before, bad) = ill err h in
                (f ∷ before, g, ap (λ gs. f ∷ gs) last, (e, none_before), bad),
          )
      | inr (err, e) ↦
          let is : call_all result (f ∷ fs) ≡ (f ∷ [], some err) = ground arith in
          subst (IsFirst result (f ∷ fs)) (sym is)
            (fs, refl, λ h. cc, λ err' h. ([], f, refl, tt, e ∙ h))
    ]

copied_methods_lem : (ms : List MethodInfo) → copied_methods ms ≡ ms
unfolding copied_methods
copied_methods_lem [] = refl
copied_methods_lem (m ∷ ms) = ap (λ ns. m ∷ ns) (copied_methods_lem ms)

copied :
    {Meta : Type 0} (v : ServiceInfo Meta)
    → record { methods = copied_methods v.methods; metadata = v.metadata } ≡ v
copied v = ap (λ ms. record { methods = ms; metadata = v.metadata }) (copied_methods_lem v.methods)

-- `GetServicesInfo` has under every name what grpc tells of it.
get_services_info_lem :
    {Meta : Type 0} (key : Text) (services : Map (ServiceInfo Meta))
    → find key (get_services_info services) ≡ find key services
unfolding get_services_info find
get_services_info_lem {Meta} key [] = refl
get_services_info_lem {Meta} key ((k, v) ∷ services) =
    let new : ServiceInfo Meta = record {
      methods = copied_methods v.methods;
      metadata = v.metadata;
    } in
    ground (
      arith,
      find-put key k new (get_services_info services),
      get_services_info_lem key services,
      copied v,
    )

-- `NewServ` calls the callbacks in their order up to the first error, and the engine has the
-- server's options.
new_serv-IsFirst :
    (result : ℕ → Option Text) (g : GrpcServer)
    → IsFirst result g.cb ((new_serv result g).1, (new_serv result g).2)
      × ((new_serv result g).0 ≡ record g { engine = some g.opts })
unfolding new_serv
new_serv-IsFirst result g = (call_all-IsFirst result g.cb, refl)
