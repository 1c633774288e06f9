-- ===== src/EtcdListen/Watcher/Handlers.antt =====
-- Which keys have a handler after a call of the watcher.
use j7f.Base.{
  ℕ, ◌≡◌, refl, Bool, true, false, none, some, Text, same_text, arith, if◌then◌else◌, Bool-cases,
  Option-cases, inl, inr,
}
use j7f.Base.Maps.{find, find-put, find-remove, find_same}
use j7f.EtcdListen.Watcher.{EtcdWatcher, new_etcd_watcher, add_watch, remove_watch, watch_returns}

abbrev pub has_handler : Text → EtcdWatcher → Bool
has_handler key mgr = elim (find key mgr.close_handler) [ none ↦ false | some cancel ↦ true ]

module _ (key k : Text) (mgr : EtcdWatcher) where
  pub add_watch_handler :
      has_handler key (add_watch k mgr).0 ≡ (if same_text k key then true else has_handler key mgr)
  add_watch_handler = elim (Option-cases (find k mgr.close_handler)) [
    | inl e ↦ unfold add_watch in ground (arith, find-put key k mgr.contexts mgr.close_handler)
    | inr (c, e) ↦ elim (Bool-cases (same_text k key)) [
      | inl s ↦ unfold add_watch in ground (arith, find_same key k mgr.close_handler s)
      | inr s ↦ unfold add_watch in ground arith
    ]
  ]

  pub remove_watch_handler :
      has_handler key (remove_watch k mgr).0
      ≡ (if same_text k key then false else has_handler key mgr)
  remove_watch_handler = elim (Option-cases (find k mgr.close_handler)) [
    | inr (c, e) ↦ unfold remove_watch in ground (arith, find-remove key k mgr.close_handler)
    | inl e ↦ elim (Bool-cases (same_text k key)) [
      | inl s ↦ unfold remove_watch in ground (arith, find_same key k mgr.close_handler s)
      | inr s ↦ unfold remove_watch in ground arith
    ]
  ]

pub watch_returns_handler :
    (key : Text) (ctx : ℕ) (mgr : EtcdWatcher)
    → has_handler key (watch_returns ctx mgr) ≡ has_handler key mgr
unfolding watch_returns
watch_returns_handler key ctx mgr = refl

pub new_etcd_watcher_handler : (key : Text) → has_handler key new_etcd_watcher ≡ false
unfolding find
new_etcd_watcher_handler key = refl
