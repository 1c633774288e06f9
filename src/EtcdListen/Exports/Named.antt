-- ===== src/EtcdListen/Exports/Named.antt =====
-- The events and the exports leave the watched names as they are.
use j7f.Base.{◌≡◌, refl, ap, ◌∙◌, Bool, List, [], ◌∷◌, Option, Text, arith, Option-cases, inl, inr}
use j7f.Base.Maps.{Map, find}
use j7f.EtcdListen.{
  Listener, NodeInfo, WatchServerInfo, WriteServerInfo, export_files, export_watchkey, Event, set,
  set_ok, create, modify, delete, empty, handle,
}

abbrev Exports : Type 0
Exports = List (Text × Map (List WriteServerInfo))

-- What the groups watch for: their names and their files.
abbrev pub watched_by : Listener → Map (Map (List Text)) × Map (Map WatchServerInfo)
watched_by l = (l.names_with_output_file, l.output_file_has_keys)

module _ (in_range : Text → Text → Bool) where
  export_files_watched :
      (files : Map (List Text)) (l : Listener)
      → watched_by (export_files in_range files l).0 ≡ watched_by l
  unfolding export_files
  export_files_watched [] l = refl
  export_files_watched ((file, namekeys) ∷ files) l = export_files_watched files _

  pub export_watchkey_watched :
      (watchkey : Text) (l : Listener)
      → watched_by (export_watchkey in_range watchkey l).0 ≡ watched_by l
  export_watchkey_watched watchkey l =
      elim (Option-cases (find watchkey l.names_with_output_file)) [
        | inl e ↦
            let is : export_watchkey in_range watchkey l ≡ (l, []) =
              unfold export_watchkey in ground arith in
            ap (λ (r : Listener × Exports). watched_by r.0) is
        | inr (files, e) ↦
            let is : export_watchkey in_range watchkey l ≡ export_files in_range files l =
              unfold export_watchkey in ground arith in
            ap (λ (r : Listener × Exports). watched_by r.0) is ∙ export_files_watched files l
      ]

  pub handle_watched :
      (parse : Text → Option NodeInfo) (e : Event) (l : Listener)
      → watched_by (handle parse in_range e l).0 ≡ watched_by l
  unfolding handle
  handle_watched parse (set watchkey key value) l = refl
  handle_watched parse (set_ok watchkey) l = export_watchkey_watched watchkey l
  handle_watched parse (create watchkey key value) l = export_watchkey_watched watchkey _
  handle_watched parse (modify watchkey key value) l = export_watchkey_watched watchkey _
  handle_watched parse (delete watchkey key) l = export_watchkey_watched watchkey _
  handle_watched parse (empty watchkey) l = export_watchkey_watched watchkey _
