-- ===== src/EtcdListen/Watcher/Refines.antt =====
-- What `watch` tells the listener, against the keys and values that etcd holds.
use j7f.Base.{
  ◌≡◌, refl, ap, sym, ◌∙◌, Bool, true, false, ◌||◌, not, List, [], ◌∷◌, ◌++◌, Option, none, some,
  Text, same_text_refl, arith, if◌then◌else◌, Bool-cases, Option-cases, inl, inr, All, subst,
}
use j7f.Base.Maps.{Map, find, put, remove, find-put, find-remove}
use j7f.EtcdListen.{
  NodeInfo, Listener, Event, set, set_ok, empty, create, modify, delete, change_settings, is_empty,
  export_files, export_watchkey, handle,
}
use j7f.EtcdListen.Settings.{node_at, change_settings_lem}
use j7f.EtcdListen.Watcher.{
  KeyValue, EtcdEvent, Arrival, ctx_done, failure, response, event_calls, events_calls, watch_loop,
  set_calls, get_calls, watch, handle_all,
}

-- The keys and values of etcd, and what an event says has become of them.
abbrev pub Store : Type 0
Store = Map Text

abbrev pub stored : EtcdEvent → Store → Store
stored ev store = if ev.is_delete then remove ev.kv.key store else put ev.kv.key ev.kv.value store

abbrev pub stored_all : List EtcdEvent → Store → Store
stored_all [] store = store
stored_all (ev ∷ evs) store = stored_all evs (stored ev store)

abbrev pub store_of : List KeyValue → Store → Store
store_of [] store = store
store_of (kv ∷ kvs) store = store_of kvs (put kv.key kv.value store)

-- The responses up to the end of the watch, and the store after them.
abbrev pub store_after : List Arrival → Store → Store
store_after [] store = store
store_after (ctx_done ∷ arrivals) store = store
store_after (failure ∷ arrivals) store = store
store_after (response evs ∷ arrivals) store = store_after arrivals (stored_all evs store)

pub export_files-settings :
    (in_range : Text → Text → Bool) (files : Map (List Text)) (l : Listener)
    → (export_files in_range files l).0.etcd_settings ≡ l.etcd_settings
unfolding export_files
export_files-settings in_range [] l = refl
export_files-settings in_range ((file, keys) ∷ files) l = export_files-settings in_range files _

pub export_watchkey-settings :
    (in_range : Text → Text → Bool) (w : Text) (l : Listener)
    → (export_watchkey in_range w l).0.etcd_settings ≡ l.etcd_settings
unfolding export_watchkey
export_watchkey-settings in_range w l = elim (Option-cases (find w l.names_with_output_file)) [
  | inl e ↦ ground arith
  | inr (files, e) ↦ ground (arith, export_files-settings in_range files l)
]

module _ (parse : Text → Option NodeInfo) where
  -- The node that a key's value stands for.
  abbrev pub view : Option Text → Option NodeInfo
  view none = none
  view (some value) = if is_empty value then none else parse value

  abbrev pub is_read : Option NodeInfo → Bool
  is_read none = false
  is_read (some ni) = true

  -- A key of etcd is not empty, and a value is empty or a node.
  abbrev pub IsReadable : KeyValue → Type 0
  IsReadable kv =
      (is_empty kv.key ≡ false) × ((is_empty kv.value || is_read (parse kv.value)) ≡ true)

  -- A put is a creation or a modification, and a deletion neither.
  abbrev pub IsOfEtcd : EtcdEvent → Type 0
  IsOfEtcd ev = IsReadable ev.kv × ((ev.is_create || ev.is_modify) ≡ not ev.is_delete)

  abbrev pub AreOfEtcd : List Arrival → Type 0
  AreOfEtcd [] = All IsOfEtcd []
  AreOfEtcd (ctx_done ∷ arrivals) = All IsOfEtcd []
  AreOfEtcd (failure ∷ arrivals) = All IsOfEtcd []
  AreOfEtcd (response evs ∷ arrivals) = All IsOfEtcd evs × AreOfEtcd arrivals

  -- Under the watched key the nodes are exactly those of the store.
  abbrev pub IsRefined : Text → Store → Map (Map NodeInfo) → Type 0
  IsRefined w store settings = (j : Text) → node_at w j settings ≡ view (find j store)

  abbrev pub settle : Event → Map (Map NodeInfo) → Map (Map NodeInfo)
  settle (set w k value) settings = change_settings parse w k value settings
  settle (set_ok w) settings = settings
  settle (create w k value) settings = change_settings parse w k value settings
  settle (modify w k value) settings = change_settings parse w k value settings
  settle (delete w k) settings = change_settings parse w k [] settings
  settle (empty w) settings = change_settings parse w [] [] settings

  abbrev pub settle_all : List Event → Map (Map NodeInfo) → Map (Map NodeInfo)
  settle_all [] settings = settings
  settle_all (e ∷ es) settings = settle_all es (settle e settings)

  settle_all-append :
      (es fs : List Event) (settings : Map (Map NodeInfo))
      → settle_all (es ++ fs) settings ≡ settle_all fs (settle_all es settings)
  settle_all-append [] fs settings = refl
  settle_all-append (e ∷ es) fs settings = settle_all-append es fs (settle e settings)

  -- A value that is written under a key of etcd.
  change-IsRefined :
      (w : Text) (kv : KeyValue) (store : Store) (settings : Map (Map NodeInfo))
      → IsReadable kv
      → IsRefined w store settings
      → IsRefined w (put kv.key kv.value store) (change_settings parse w kv.key kv.value settings)
  change-IsRefined w kv store settings (k, v) r j =
      change_settings_lem parse w kv.key kv.value w j settings
      ∙ elim (Option-cases (parse kv.value)) [
        | inl e ↦ ground (arith, same_text_refl w, r j, find-put j kv.key kv.value store)
        | inr (ni, e) ↦ ground (arith, same_text_refl w, r j, find-put j kv.key kv.value store)
      ]

  delete-IsRefined :
      (w k : Text) (store : Store) (settings : Map (Map NodeInfo))
      → is_empty k ≡ false
      → IsRefined w store settings
      → IsRefined w (remove k store) (change_settings parse w k [] settings)
  delete-IsRefined w k store settings h r j =
      change_settings_lem parse w k [] w j settings
      ∙ ground (arith, same_text_refl w, r j, find-remove j k store)

  event-IsRefined :
      (w : Text) (ev : EtcdEvent) (store : Store) (settings : Map (Map NodeInfo))
      → IsOfEtcd ev
      → IsRefined w store settings
      → IsRefined w (stored ev store) (settle_all (event_calls w ev) settings)
  unfolding event_calls
  event-IsRefined w ev store settings (kv, h) r j = elim (Bool-cases ev.is_delete) [
    | inl d ↦ ground (arith, delete-IsRefined w ev.kv.key store settings kv.0 r j)
    | inr d ↦ ground (arith, change-IsRefined w ev.kv store settings kv r j)
  ]

  events-IsRefined :
      (w : Text) (evs : List EtcdEvent) (store : Store) (settings : Map (Map NodeInfo))
      → All IsOfEtcd evs
      → IsRefined w store settings
      → IsRefined w (stored_all evs store) (settle_all (events_calls w evs) settings)
  unfolding events_calls
  events-IsRefined w [] store settings hs r = r
  events-IsRefined w (ev ∷ evs) store settings (h, hs) r =
      let rest =
        events-IsRefined w evs (stored ev store) _ hs (event-IsRefined w ev store settings h r) in
      subst (IsRefined w (stored_all evs (stored ev store)))
        (sym (settle_all-append (event_calls w ev) (events_calls w evs) settings)) rest

  loop-IsRefined :
      (w : Text) (arrivals : List Arrival) (store : Store) (settings : Map (Map NodeInfo))
      → AreOfEtcd arrivals
      → IsRefined w store settings
      → IsRefined w (store_after arrivals store) (settle_all (watch_loop w arrivals).0 settings)
  unfolding watch_loop
  loop-IsRefined w [] store settings hs r = r
  loop-IsRefined w (ctx_done ∷ arrivals) store settings hs r = r
  loop-IsRefined w (failure ∷ arrivals) store settings hs r = r
  loop-IsRefined w (response evs ∷ arrivals) store settings (h, hs) r =
      let rest =
        loop-IsRefined w arrivals (stored_all evs store) _ hs
          (events-IsRefined w evs store settings h r) in
      subst (IsRefined w (store_after arrivals (stored_all evs store)))
        (sym (settle_all-append (events_calls w evs) (watch_loop w arrivals).0 settings)) rest

  set-IsRefined :
      (w : Text) (kvs : List KeyValue) (store : Store) (settings : Map (Map NodeInfo))
      → All IsReadable kvs
      → IsRefined w store settings
      → IsRefined w (store_of kvs store) (settle_all (set_calls w kvs) settings)
  unfolding set_calls
  set-IsRefined w [] store settings hs r = r
  set-IsRefined w (kv ∷ kvs) store settings (h, hs) r =
      set-IsRefined w kvs _ _ hs (change-IsRefined w kv store settings h r)

  get-IsRefined :
      (w : Text) (kvs : List KeyValue) (settings : Map (Map NodeInfo))
      → All IsReadable kvs
      → IsRefined w [] settings
      → IsRefined w (store_of kvs []) (settle_all (get_calls w kvs) settings)
  unfolding get_calls
  get-IsRefined w [] settings hs r = λ j.
      change_settings_lem parse w [] [] w j settings
      ∙ unfold find in ground (arith, same_text_refl w)
  get-IsRefined w (kv ∷ kvs) settings hs r =
      subst (IsRefined w (store_of (kv ∷ kvs) []))
        (sym (settle_all-append (set_calls w (kv ∷ kvs)) (set_ok w ∷ []) settings))
        (set-IsRefined w (kv ∷ kvs) [] settings hs r)

  module _ (in_range : Text → Text → Bool) where
    handle-settings :
        (e : Event) (l : Listener)
        → (handle parse in_range e l).0.etcd_settings ≡ settle e l.etcd_settings
    unfolding handle
    handle-settings (set w k value) l = refl
    handle-settings (set_ok w) l = export_watchkey-settings in_range w l
    handle-settings (create w k value) l = export_watchkey-settings in_range w _
    handle-settings (modify w k value) l = export_watchkey-settings in_range w _
    handle-settings (delete w k) l = export_watchkey-settings in_range w _
    handle-settings (empty w) l = export_watchkey-settings in_range w _

    pub handle_all-settings :
        (es : List Event) (l : Listener)
        → (handle_all parse in_range es l).etcd_settings ≡ settle_all es l.etcd_settings
    unfolding handle_all
    handle_all-settings [] l = refl
    handle_all-settings (e ∷ es) l =
        handle_all-settings es _ ∙ ap (settle_all es) (handle-settings e l)

    -- Where no node is known under a watched key, and all keys and values that etcd answers and
    -- tells of are readable: after the calls that `watch` makes of the listener, for the keys
    -- of the first answer and for every response up to the end of the watch, the nodes known
    -- under the watched key are exactly those that the keys and values of etcd stand for.
    pub watch-IsRefined :
        (w : Text) (kvs : List KeyValue) (arrivals : List Arrival) (l : Listener)
        → All IsReadable kvs
        → AreOfEtcd arrivals
        → IsRefined w [] l.etcd_settings
        → IsRefined w
            (store_after arrivals (store_of kvs []))
            (handle_all parse in_range (watch w (some kvs) arrivals).0 l).etcd_settings
    unfolding watch
    watch-IsRefined w kvs arrivals l hs hs' r =
        let got = get-IsRefined w kvs l.etcd_settings hs r in
        let looped = loop-IsRefined w arrivals _ _ hs' got in
        let same =
          handle_all-settings (get_calls w kvs ++ (watch_loop w arrivals).0) l
          ∙ settle_all-append (get_calls w kvs) (watch_loop w arrivals).0 l.etcd_settings in
        subst (IsRefined w (store_after arrivals (store_of kvs []))) (sym same) looped
