-- ===== src/EtcdListen/Watcher/Settled.antt =====
-- What a watch tells the listener ends with an export, which settles what a file is given.
use j7f.Base.{
  ◌≡◌, refl, ap, sym, ◌∙◌, subst, Bool, List, [], ◌∷◌, ◌++◌, Option, some, Text, arith, Bool-cases,
  inl, inr, All,
}
use j7f.Base.Maps.{find}
use j7f.EtcdListen.{
  WatchServerInfo, NodeInfo, Listener, servers_for, export_files, export_watchkey, Event, set,
  set_ok, empty, create, modify, delete, handle,
}
use j7f.EtcdListen.Exports.Named.{watched_by, handle_watched}
use j7f.EtcdListen.Watcher.{
  KeyValue, EtcdEvent, Arrival, ctx_done, failure, response, event_calls, events_calls, watch_loop,
  set_calls, get_calls, watch, handle_all,
}
use j7f.EtcdListen.Watcher.Refines.{export_watchkey-settings}
use j7f.EtcdListen.Watcher.Exported.{Watches, output_of, IsSettled, export_files_settles}

module _ (parse : Text → Option NodeInfo) (in_range : Text → Text → Bool) (w file key : Text)
    (config : WatchServerInfo) where
  -- An event of the watched key that ends with an export.
  abbrev Exports : Event → Type 0
  Exports (set v k value) = ⊥
  Exports (set_ok v) = v ≡ w
  Exports (create v k value) = v ≡ w
  Exports (modify v k value) = v ≡ w
  Exports (delete v k) = v ≡ w
  Exports (empty v) = v ≡ w

  export_watchkey_settles :
      (v : Text) (l : Listener)
      → v ≡ w
      → Watches w file key config (watched_by l)
      → IsSettled in_range file key config (export_watchkey in_range v l).0
  export_watchkey_settles v l e h =
      let found : find v l.names_with_output_file ≡ some h.files =
        ap (λ t. find t l.names_with_output_file) e ∙ h.named in
      let is : (export_watchkey in_range v l).0 ≡ (export_files in_range h.files l).0 =
        unfold export_watchkey in ground arith in
      let settled =
        export_files_settles in_range file key config h.configs h.configured h.files h.keys l
          h.grouped h.listed h.wanted in
      ap (output_of in_range file key config) is
      ∙ (settled
          ∙ ap (λ m. some (servers_for in_range config m))
              (sym (export_watchkey-settings in_range v l)))

  handle_settles :
      (e : Event) (l : Listener)
      → Exports e
      → Watches w file key config (watched_by l)
      → IsSettled in_range file key config (handle parse in_range e l).0
  unfolding handle
  handle_settles (set v k value) l x h = absurd x
  handle_settles (set_ok v) l x h = export_watchkey_settles v l x h
  handle_settles (create v k value) l x h = export_watchkey_settles v _ x h
  handle_settles (modify v k value) l x h = export_watchkey_settles v _ x h
  handle_settles (delete v k) l x h = export_watchkey_settles v _ x h
  handle_settles (empty v) l x h = export_watchkey_settles v _ x h

  -- Events of which the last one exports.
  abbrev Ends : List Event → Type 0
  Ends [] = ⊥
  Ends (e ∷ []) = Exports e
  Ends (e ∷ f ∷ es) = Ends (f ∷ es)

  handle_all_settles :
      (es : List Event) (l : Listener)
      → Ends es
      → Watches w file key config (watched_by l)
      → IsSettled in_range file key config (handle_all parse in_range es l)
  unfolding handle_all
  handle_all_settles [] l x h = absurd x
  handle_all_settles (e ∷ []) l x h = handle_settles e l x h
  handle_all_settles (e ∷ f ∷ es) l x h =
      handle_all_settles (f ∷ es) (handle parse in_range e l).0 x
        (subst (Watches w file key config) (sym (handle_watched in_range parse e l)) h)

  Ends-append : (xs ys : List Event) → Ends xs → All Exports ys → Ends (xs ++ ys)
  Ends-append [] ys x a = absurd x
  Ends-append (e ∷ f ∷ xs) ys x a = Ends-append (f ∷ xs) ys x a
  Ends-append (e ∷ []) [] x a = x
  Ends-append (e ∷ []) (y ∷ []) x a = a.0
  Ends-append (e ∷ []) (y ∷ z ∷ ys) x a = Ends-append (y ∷ []) (z ∷ ys) a.0 a.1

  Ends-concat : (xs : List Event) (e : Event) → Exports e → Ends (xs ++ e ∷ [])
  Ends-concat [] e x = x
  Ends-concat (y ∷ []) e x = x
  Ends-concat (y ∷ z ∷ xs) e x = Ends-concat (z ∷ xs) e x

  get_calls-Ends : (kvs : List KeyValue) → Ends (get_calls w kvs)
  unfolding get_calls
  get_calls-Ends [] = refl
  get_calls-Ends (kv ∷ kvs) = Ends-concat (set_calls w (kv ∷ kvs)) (set_ok w) refl

  All-append : (xs ys : List Event) → All Exports xs → All Exports ys → All Exports (xs ++ ys)
  All-append [] ys h k = k
  All-append (x ∷ xs) ys h k = (h.0, All-append xs ys h.1 k)

  event_calls-Exports : (ev : EtcdEvent) → All Exports (event_calls w ev)
  event_calls-Exports ev = elim (Bool-cases ev.is_create) [
    | inl c ↦ unfold event_calls in rw c (refl, tt)
    | inr c ↦ elim (Bool-cases ev.is_modify) [
      | inl m ↦ unfold event_calls in rw (c, m) (refl, tt)
      | inr m ↦ elim (Bool-cases ev.is_delete) [
        | inl d ↦ unfold event_calls in rw (c, m, d) (refl, tt)
        | inr d ↦ unfold event_calls in rw (c, m, d) tt
      ]
    ]
  ]

  events_calls-Exports : (evs : List EtcdEvent) → All Exports (events_calls w evs)
  unfolding events_calls
  events_calls-Exports [] = tt
  events_calls-Exports (ev ∷ evs) =
      All-append (event_calls w ev) (events_calls w evs) (event_calls-Exports ev)
        (events_calls-Exports evs)

  watch_loop-Exports : (arrivals : List Arrival) → All Exports (watch_loop w arrivals).0
  unfolding watch_loop
  watch_loop-Exports [] = tt
  watch_loop-Exports (ctx_done ∷ arrivals) = tt
  watch_loop-Exports (failure ∷ arrivals) = tt
  watch_loop-Exports (response evs ∷ arrivals) =
      All-append (events_calls w evs) (watch_loop w arrivals).0 (events_calls-Exports evs)
        (watch_loop-Exports arrivals)

  pub watch-IsSettled :
      (kvs : List KeyValue) (arrivals : List Arrival) (l : Listener)
      → Watches w file key config (watched_by l)
      → IsSettled in_range file key config
          (handle_all parse in_range (watch w (some kvs) arrivals).0 l)
  unfolding watch
  watch-IsSettled kvs arrivals l h =
      handle_all_settles (get_calls w kvs ++ (watch_loop w arrivals).0) l
        (Ends-append (get_calls w kvs) (watch_loop w arrivals).0 (get_calls-Ends kvs)
          (watch_loop-Exports arrivals))
        h
