-- ===== src/Setup/Removal.antt =====
-- Which files an uninstall removes (`uninstall`, daemon/src/setup.rs).
use nicewatch.Prelude.{
  ◌≡◌, refl, ap, ◌∙◌, Bool, true, false, List, ◌++◌, Option, none, some, if◌then◌else◌, ◌==◌,
  contains, arith, eq_iff,
}
use nicewatch.Prelude.Paths.{FilePath, path_eq}
use nicewatch.Prelude.Maps.{get-remove, is_some}
use nicewatch.Setup.{remove_if, stop_service, remove_unit, remove_entry, unit_dir, uninstall}
use nicewatch.Setup.Places.{unit_in, entry_in, autostart_dir, systemd_user_available}
use nicewatch.Setup.Machine.{
  Session, Machine, Result, ok, err, next, ◌>>=◌, give, exists, remove_file, systemctl,
}
use nicewatch.Setup.Traces.{contains-split, file_at, unit_of, entry_of, removable}

module _ (s : Session) where
  remove_if-file :
      (path q : FilePath) (m : Machine) (there : Bool) {gone : List FilePath}
      → is_some (file_at q m) ≡ there
      → (remove_if s there q m).1 ≡ ok gone
      → file_at path (remove_if s there q m).0 ≡ (if q == path then none else file_at path m)
  unfolding ◌>>=◌ remove_if remove_file
  remove_if-file path q m false e r = ground (arith, eq_iff q path, ap (λ k. is_some (file_at k m)))
  remove_if-file path q m true e r = ground (arith, get-remove q path m.host.files)

  stopped-file :
      (path q : FilePath) (m : Machine) (there : Bool) {gone : List FilePath}
      → is_some (file_at q m) ≡ there
      → ((stop_service s there >>= λ _. remove_if s there q) m).1 ≡ ok gone
      → file_at path ((stop_service s there >>= λ _. remove_if s there q) m).0
        ≡ (if q == path then none else file_at path m)
  unfolding ◌>>=◌ stop_service systemctl
  stopped-file path q m false e r = remove_if-file path q m false e r
  stopped-file path q m true e r = remove_if-file path q _ true e r

  remove_unit-file :
      (path : FilePath) (o : Option FilePath) (m : Machine) {gone : List FilePath}
      → (remove_unit s o m).1 ≡ ok gone
      → file_at path (remove_unit s o m).0
        ≡ (if contains (unit_of o) path then none else file_at path m)
  unfolding ◌>>=◌ remove_unit exists contains
  remove_unit-file path none m r = refl
  remove_unit-file path (some dir) m r = stopped-file path (unit_in dir) m _ refl r ∙ ground arith

  remove_entry-file :
      (path : FilePath) (o : Option FilePath) (m : Machine) {gone : List FilePath}
      → (remove_entry s o m).1 ≡ ok gone
      → file_at path (remove_entry s o m).0
        ≡ (if contains (entry_of o) path then none else file_at path m)
  unfolding ◌>>=◌ remove_entry exists contains
  remove_entry-file path none m r = refl
  remove_entry-file path (some dir) m r =
      remove_if-file path (entry_in dir) m _ refl r ∙ ground arith

  -- A last step that only combines results.
  last_step :
      (q : Machine × Result (List FilePath)) (units : List FilePath) {gone : List FilePath}
      → (next (λ entries. give (units ++ entries)) q).1 ≡ ok gone
      → ((entries : List FilePath) × (q.1 ≡ ok entries))
        × ((next (λ entries. give (units ++ entries)) q).0 ≡ q.0)
  last_step (m, ok entries) units h = ((entries, refl), refl)
  last_step (m, err e) units h = cc

  -- The rest of `uninstall`, on the result of its first part.
  rest_of : Machine × Result (List FilePath) → Machine × Result (List FilePath)
  rest_of r =
      next (λ units. remove_entry s (autostart_dir s) >>= λ entries. give (units ++ entries)) r

  rest_of-file :
      (path : FilePath) (r : Machine × Result (List FilePath)) {gone : List FilePath}
      → (rest_of r).1 ≡ ok gone
      → ((units : List FilePath) × (r.1 ≡ ok units))
        × (file_at path (rest_of r).0
            ≡ (if contains (entry_of (autostart_dir s)) path then none else file_at path r.0))
  unfolding ◌>>=◌ rest_of
  rest_of-file path (m, err e) h = cc
  rest_of-file path (m, ok units) h =
      let ((entries, done), same) = last_step (remove_entry s (autostart_dir s) m) units h in
      ((units, refl), ap (file_at path) same ∙ remove_entry-file path (autostart_dir s) m done)

  -- An uninstall that succeeds has removed the user's unit, where the session has a systemd for its
  -- user, and the autostart entry, and has left every other file as it was, the system-wide unit
  -- included.
  pub uninstall-exact :
      (path : FilePath) (m : Machine) (gone : List FilePath)
      → (uninstall s m).1 ≡ ok gone
      → file_at path (uninstall s m).0
        ≡ (if contains (removable s) path then none else file_at path m)
  unfolding ◌>>=◌ uninstall rest_of
  uninstall-exact path m gone h =
      let dir = unit_dir s (systemd_user_available s) in
      let ((units, done), rest) = rest_of-file path (remove_unit s dir m) h in
      rest
      ∙ ground (
        arith,
        remove_unit-file path dir m done,
        contains-split (unit_of dir) (entry_of (autostart_dir s)) path,
      )
