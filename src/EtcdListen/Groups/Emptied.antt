-- ===== src/EtcdListen/Groups/Emptied.antt =====
-- What `EmptyGroupWatchs` leaves of a file whose keys are the group's own: nothing.
use j7f.Base.{
  ◌≡◌, refl, sym, subst, Bool, true, false, List, [], ◌∷◌, Option, none, some, Text, same_text,
  if◌then◌else◌,
}
use j7f.Base.Maps.{Map, entry_at}
use j7f.EtcdListen.{WatchServerInfo}
use j7f.EtcdListen.Groups.{forget_key, forget_all}
use j7f.EtcdListen.Groups.Owned.{IsOwn, forget_key-IsOwn}
use j7f.EtcdListen.Groups.Entries.{Names, keys_for, map_entry, filled, round, round_entry}

-- An entry whose keys are the group's own; there is none without keys.
abbrev pub HasOwn : List Text → Option (List Text) → Type 0
HasOwn allowed none = Unit
HasOwn allowed (some []) = ⊥
HasOwn allowed (some (k ∷ ks)) = IsOwn allowed (k ∷ ks)

filled-HasOwn :
    (allowed keys : List Text) → IsOwn allowed keys → HasOwn allowed (filled (some keys))
filled-HasOwn allowed [] h = tt
filled-HasOwn allowed (k ∷ ks) h = h

shrunk-HasOwn :
    (sname : Text) (allowed : List Text) (e : Option (List Text))
    → HasOwn (sname ∷ allowed) e
    → HasOwn allowed (filled (map_entry (forget_key sname) e))
shrunk-HasOwn sname allowed none h = tt
shrunk-HasOwn sname allowed (some []) h = absurd h
shrunk-HasOwn sname allowed (some (k ∷ ks)) h =
    filled-HasOwn allowed (forget_key sname (k ∷ ks))
      (forget_key-IsOwn sname allowed (k ∷ ks) h.0 h.1)

picked-HasOwn :
    (b : Bool) (sname : Text) (allowed : List Text) (e : Option (List Text))
    → HasOwn (if b then sname ∷ allowed else allowed) e
    → HasOwn allowed (if b then filled (map_entry (forget_key sname) e) else e)
picked-HasOwn true sname allowed e h = shrunk-HasOwn sname allowed e h
picked-HasOwn false sname allowed e h = h

none_own : (e : Option (List Text)) → HasOwn [] e → e ≡ none
none_own none h = refl
none_own (some []) h = absurd h
none_own (some (k ∷ ks)) h = cc (h.1.0)

module _ (alias : Text) where
  abbrev pub Owns : Map WatchServerInfo → Names → Type 0
  Owns group names = (n : Text) → HasOwn (keys_for n group) (entry_at n alias names)

  round-Owns :
      (sname : Text) (watch : WatchServerInfo) (group : Map WatchServerInfo) (names : Names)
      → Owns ((sname, watch) ∷ group) names
      → Owns group (round alias sname watch.name names)
  round-Owns sname watch group names h n =
      subst (HasOwn (keys_for n group)) (sym (round_entry alias n sname watch.name names)) (
        picked-HasOwn (same_text watch.name n) sname (keys_for n group) (entry_at n alias names)
          (h n))

  pub forget_all_emptied :
      (n : Text) (group : Map WatchServerInfo) (names : Names)
      → Owns group names
      → entry_at n alias (forget_all alias group names).0 ≡ none
  unfolding forget_all
  forget_all_emptied n [] names h = none_own (entry_at n alias names) (h n)
  forget_all_emptied n ((sname, watch) ∷ group) names h =
      forget_all_emptied n group (round alias sname watch.name names)
        (round-Owns sname watch group names h)
