-- ===== src/Http/Server/Services.antt =====
-- The methods that the server tells of under a path.
use j7f.Base.{
  ℕ, ◌≡◌, refl, ap, sym, ◌∙◌, Bool, true, false, List, [], ◌∷◌, ◌++◌, append_assoc, append-nil,
  Option, none, some, Text, same_text, same_text_refl, arith, if◌then◌else◌, Bool-cases,
  Option-cases, inl, inr,
}
use j7f.Base.Maps.{Map, find, put, find-put, find_same}
use j7f.Http.Server.{
  Route, HttpServer, MethodInfo, or_empty, with_entry, add_route, add_routes, get_services_info,
  new_serv, call_all, ping_route, ping_init,
}

-- The methods of the routes with a path, in their order.
abbrev pub methods_at : Text → List Route → List MethodInfo
methods_at path [] = []
methods_at path (route ∷ routes) =
    let rest = methods_at path routes in
    if same_text route.path path
    then record { name = route.method; is_client_stream = false; is_server_stream = false } ∷ rest
    else rest

-- An entry with more methods; there is none where there is no method.
abbrev pub extended : Option (List MethodInfo) → List MethodInfo → Option (List MethodInfo)
extended none [] = none
extended none (m ∷ ms) = some (m ∷ ms)
extended (some ns) ms = some (ns ++ ms)

find-with_entry :
    (key path : Text) (infos : Map (List MethodInfo))
    → find key (with_entry path infos)
      ≡ (if same_text path key then some (or_empty (find key infos)) else find key infos)
find-with_entry key path infos = elim (Option-cases (find path infos)) [
  | inl e ↦
      let made : with_entry path infos ≡ put path [] infos = unfold with_entry in ground arith in
      ap (find key) made ∙ elim (Bool-cases (same_text path key)) [
        | inl s ↦ ground (arith, find-put key path [] infos, find_same key path infos s)
        | inr s ↦ ground (arith, find-put key path [] infos)
      ]
  | inr (ms, e) ↦
      let kept : with_entry path infos ≡ infos = unfold with_entry in ground arith in
      ap (find key) kept ∙ elim (Bool-cases (same_text path key)) [
        | inl s ↦ ground (arith, find_same key path infos s)
        | inr s ↦ ground arith
      ]
]

abbrev pub method_of : Route → MethodInfo
method_of route = record { name = route.method; is_client_stream = false; is_server_stream = false }

find-add_route :
    (key : Text) (route : Route) (infos : Map (List MethodInfo))
    → find key (add_route route infos) ≡ (
        if same_text route.path key
        then some (or_empty (find key infos) ++ method_of route ∷ [])
        else find key infos)
unfolding add_route
find-add_route key route infos =
    let made = with_entry route.path infos in
    let methods = or_empty (find route.path made) ++ method_of route ∷ [] in
    find-put key route.path methods made ∙ elim (Bool-cases (same_text route.path key)) [
      | inl s ↦
          let here : find route.path made ≡ some (or_empty (find route.path infos)) =
            ground
              (arith, find-with_entry route.path route.path infos, same_text_refl route.path) in
          ground (arith, ap or_empty here, ap or_empty (find_same key route.path infos s))
      | inr s ↦ ground (arith, find-with_entry key route.path infos)
    ]

extended-after :
    (h : Option (List MethodInfo)) (m : MethodInfo) (ms : List MethodInfo)
    → extended (some (or_empty h ++ m ∷ [])) ms ≡ extended h (m ∷ ms)
extended-after none m ms = refl
extended-after (some ns) m ms = ap some (append_assoc ns (m ∷ []) ms)

extended-if :
    (b : Bool) (h : Option (List MethodInfo)) (m : MethodInfo) (ms : List MethodInfo)
    → extended (if b then some (or_empty h ++ m ∷ []) else h) ms
      ≡ extended h (if b then m ∷ ms else ms)
extended-if true h m ms = extended-after h m ms
extended-if false h m ms = refl

extended-none : (h : Option (List MethodInfo)) → extended h [] ≡ h
extended-none none = refl
extended-none (some ns) = ap some (append-nil ns)

find-add_routes :
    (key : Text) (routes : List Route) (infos : Map (List MethodInfo))
    → find key (add_routes routes infos) ≡ extended (find key infos) (methods_at key routes)
unfolding add_routes
find-add_routes key [] infos = sym (extended-none (find key infos))
find-add_routes key (route ∷ routes) infos =
    find-add_routes key routes (add_route route infos)
    ∙ (ap (λ h. extended h (methods_at key routes)) (find-add_route key route infos)
        ∙ extended-if (same_text route.path key) (find key infos) (method_of route)
            (methods_at key routes))

methods_at-append :
    (key : Text) (rs ts : List Route)
    → methods_at key (rs ++ ts) ≡ methods_at key rs ++ methods_at key ts
methods_at-append key [] ts = refl
methods_at-append key (r ∷ rs) ts = ground (arith, methods_at-append key rs ts)

extended-more :
    (ms : List MethodInfo) (m : MethodInfo) → extended none (ms ++ m ∷ []) ≡ some (ms ++ m ∷ [])
extended-more [] m = refl
extended-more (n ∷ ms) m = refl

-- The services that the server tells of are the paths of its routes, each with its methods in the order
-- of the routes.
services_lem :
    (key : Text) (g : HttpServer)
    → find key (get_services_info g) ≡ extended none (methods_at key g.engine.routes)
unfolding get_services_info
services_lem key g =
    let none_yet : find {A = List MethodInfo} key [] ≡ none = unfold find in refl in
    find-add_routes key g.engine.routes []
    ∙ ap (λ h. extended h (methods_at key g.engine.routes)) none_yet

-- Where `NewServ` gives no error, no callback has given one, and the server tells of the path
-- /j7ping, with the methods of the callbacks' routes there and GET as the last.
new_serv_lem :
    (run : ℕ → HttpServer → HttpServer × Option Text) (g : HttpServer)
    → (new_serv run g).1 ≡ none
    → let h = call_all run g.cb g in
      (h.1 ≡ none)
      × (find ping_route.path (get_services_info (new_serv run g).0)
          ≡ some (methods_at ping_route.path h.0.engine.routes ++ method_of ping_route ∷ []))
new_serv_lem run g e =
    let h = call_all run g.cb g in
    elim (Option-cases h.1) [
      | inr (err, f) ↦
          let failed : (new_serv run g).1 ≡ some err = unfold new_serv in ground arith in
          absurd (cc (sym failed ∙ e))
      | inl f ↦
          let made : (new_serv run g).0 ≡ record (ping_init h.0) { serving = some h.0.addr } =
            unfold new_serv in ground arith in
          (
            f,
            ap (λ s. find ping_route.path (get_services_info s)) made
                ∙ (services_lem ping_route.path (record (ping_init h.0) { serving = some h.0.addr })
                    ∙ (ap (extended none)
                          (methods_at-append ping_route.path h.0.engine.routes (ping_route ∷ []))
                        ∙ extended-more (methods_at ping_route.path h.0.engine.routes)
                            (method_of ping_route))),
          )
    ]
