-- ===== src/EtcdListen/Listening/Covered.antt =====
-- The watched keys are those that a file watches for, whatever the package is asked to do.
use j7f.Base.{
  ℕ, ◌≡◌, ◌≤◌, refl, ap, sym, ◌∙◌, subst, Bool, ◌||◌, List, [], ◌∷◌, Option, none, some, Text,
  arith, if◌then◌else◌, length, Bool-cases, Option-cases, inl, inr,
}
use j7f.Base.Maps.{find}
use j7f.EtcdListen.{Listener, NodeInfo, is_empty, handle}
use j7f.EtcdListen.Exports.Named.{export_watchkey_watched, handle_watched}
use j7f.EtcdListen.Groups.{empty_group}
use j7f.EtcdListen.Watcher.{EtcdWatcher}
use j7f.EtcdListen.Watcher.Handlers.{has_handler, watch_returns_handler}
use j7f.EtcdListen.Watcher.Live.{live, IsGuarded, returns-IsGuarded}
use j7f.EtcdListen.Listening.{
  Listening, nothing_yet, map_keys, add_watches, reload_etcd_watch, end_group, Exported, exported,
  export_all, reload_export, Step, begins, ends, starts, reloads, exports, told, returns, state_of,
  step, steps,
}
use j7f.EtcdListen.Listening.Handled.{
  is_named, Names, has_key-map_keys, add_watches_handler, add_watches-IsGuarded,
  remove_watches-IsGuarded, Covers, IsSound, IsCovered, reload-Covers, reload-IsSound,
  start-IsCovered, begin_group-IsCovered, end_group-Covers,
}

abbrev pub one_if : Bool → ℕ
one_if b = if b then 1 else 0

-- What a step may give: nothing, by a panic, or a covered state.
abbrev Yields : Option Listening → Type 0
Yields none = Unit
Yields (some q) = IsCovered q

end_group-Yields :
    (alias : Text) (l : Listener) (o : Option EtcdWatcher) (io : Bool)
    → IsSound l.names_with_output_file o
    → Yields (end_group alias (record { listener = l; etcdw = o; lsio = io }))
unfolding end_group
end_group-Yields alias l (some mgr) io s =
    (remove_watches-IsGuarded (empty_group alias l).1 mgr s.0, end_group-Covers alias l mgr s.1)
end_group-Yields alias l none io s = elim (Bool-cases (is_empty (empty_group alias l).1)) [
  | inl e ↦ rw e tt
  | inr e ↦ rw e tt
]

module _ (parse : Text → Option NodeInfo) (in_range : Text → Text → Bool) where
  exported-Yields :
      (r : Listener × Exported) (p : Listening)
      → r.0.names_with_output_file ≡ p.listener.names_with_output_file
      → IsCovered p
      → Yields (state_of (exported r p))
  unfolding exported
  exported-Yields (l, out) p e s = elim (Bool-cases (p.lsio || is_empty out)) [
    | inl b ↦ rw b (subst (λ names. IsSound names p.etcdw) (sym e) s)
    | inr b ↦ rw b tt
  ]

  export_all_named :
      (keys : List Text) (l : Listener)
      → (export_all in_range keys l).0.names_with_output_file ≡ l.names_with_output_file
  unfolding export_all
  export_all_named [] l = refl
  export_all_named (key ∷ keys) l =
      export_all_named keys _ ∙ ap (λ r. r.0) (export_watchkey_watched in_range key l)

  returns-Yields :
      (ctx : ℕ) (l : Listener) (o : Option EtcdWatcher) (io : Bool)
      → IsSound l.names_with_output_file o
      → Yields (step parse in_range (returns ctx) (record { listener = l; etcdw = o; lsio = io }))
  unfolding step
  returns-Yields ctx l none io s = tt
  returns-Yields ctx l (some mgr) io s =
      (returns-IsGuarded ctx mgr s.0, λ key h. watch_returns_handler key ctx mgr ∙ s.1 key h)

  step-Yields : (t : Step) (p : Listening) → IsCovered p → Yields (step parse in_range t p)
  unfolding step reload_export
  step-Yields (begins wsi alias) p s = begin_group-IsCovered wsi alias p s
  step-Yields (ends alias) p s = end_group-Yields alias p.listener p.etcdw p.lsio s
  step-Yields (starts made io) p s = start-IsCovered made io p
  step-Yields reloads p s = reload-IsSound p.listener p.etcdw p.lsio s
  step-Yields exports p s =
      let keys = map_keys p.listener.names_with_output_file in
      exported-Yields (export_all in_range keys p.listener) p (export_all_named keys p.listener) s
  step-Yields (told e) p s =
      exported-Yields (handle parse in_range e p.listener) p
        (ap (λ r. r.0) (handle_watched in_range parse e p.listener)) s
  step-Yields (returns ctx) p s = returns-Yields ctx p.listener p.etcdw p.lsio s

  steps-Yields : (ts : List Step) (p : Listening) → IsCovered p → Yields (steps parse in_range ts p)
  steps-Yields [] p s = unfold steps in s
  steps-Yields (t ∷ ts) p s = elim (Option-cases (step parse in_range t p)) [
    | inl e ↦
        let is : steps parse in_range (t ∷ ts) p ≡ none = unfold steps in ground arith in
        subst Yields (sym is) tt
    | inr (q, e) ↦
        let is : steps parse in_range (t ∷ ts) p ≡ steps parse in_range ts q =
          unfold steps in ground arith in
        subst Yields (sym is) (steps-Yields ts q (subst Yields e (step-Yields t p s)))
  ]

  live-bound :
      (key : Text) (names : Names) (mgr : EtcdWatcher)
      → IsGuarded mgr
      → Covers names mgr
      → length (live key mgr.cancelled mgr.watches) ≤ one_if (is_named key names)
  live-bound key names mgr g c = elim (g key) [
    | inl z ↦ ground (arith, ap length z)
    | inr (ctx, f, z) ↦ elim (Option-cases (find key names)) [
      | inl e ↦ absurd (ground (arith, c key e))
      | inr (files, e) ↦ ground (arith, ap length z)
    ]
  ]

  reload_handler :
      (key : Text) (names : Names) (mgr : EtcdWatcher)
      → Covers names mgr
      → has_handler key (add_watches (map_keys names) mgr) ≡ is_named key names
  reload_handler key names mgr c = elim (Option-cases (find key names)) [
    | inl e ↦
        ground
          (arith, add_watches_handler key (map_keys names) mgr, has_key-map_keys key names, c key e)
    | inr (files, e) ↦
        ground (arith, add_watches_handler key (map_keys names) mgr, has_key-map_keys key names)
  ]

  -- For any groups that begin and end, starts, reloads, exports, events and ends of goroutines
  -- that lead to a watcher without a panic: of a key at most one goroutine of this watcher is
  -- live, and none where no file watches for the key; after `ReloadEtcdWatch` so it is again,
  -- and the watcher has a handler for exactly the keys that some file watches for.
  pub reload_watches :
      (ts : List Step) (p : Listening) (mgr : EtcdWatcher) (key : Text)
      → steps parse in_range ts nothing_yet ≡ some p
      → p.etcdw ≡ some mgr
      → (length (live key mgr.cancelled mgr.watches)
          ≤ one_if (is_named key p.listener.names_with_output_file))
        × (m : EtcdWatcher) × ((reload_etcd_watch p).etcdw ≡ some m)
        × (has_handler key m ≡ is_named key p.listener.names_with_output_file)
        × (length (live key m.cancelled m.watches)
            ≤ one_if (is_named key p.listener.names_with_output_file))
  reload_watches ts p mgr key e f =
      let names = p.listener.names_with_output_file in
      let s : IsCovered p = subst Yields e (steps-Yields ts nothing_yet tt) in
      let now : IsGuarded mgr × Covers names mgr = subst (IsSound names) f s in
      let m = add_watches (map_keys names) mgr in
      let is : (reload_etcd_watch p).etcdw ≡ some m = unfold reload_etcd_watch in rw f in
      (
        live-bound key names mgr now.0 now.1,
        m,
        is,
        reload_handler key names mgr now.1,
        live-bound key names m (add_watches-IsGuarded (map_keys names) mgr now.0)
            (reload-Covers names mgr now.1),
      )
