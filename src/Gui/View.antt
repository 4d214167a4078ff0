-- ===== src/Gui/View.antt =====
-- The processes that the desktop client shows, and how a difference changes them (the listener of
-- `EVT_DIFF`, gui/src/lib/store.svelte.ts, to which connect_loop of gui/src-tauri/src/lib.rs hands
-- each frame).
pub mod Entries
pub mod Fields
pub mod Parts
pub mod Follows
pub mod Served
pub mod Reached
use nicewatch.Prelude.{ℕ, nat_eq, List, [], ◌∷◌, if◌then◌else◌}
use nicewatch.Prelude.Maps.{Map, insert, remove, values}
use nicewatch.Wire.{ProcessInfo, Diff, ServerMsg}
use nicewatch.Daemon.Client.{sort_by_pid}

module _ {F : Type 0} where
  -- `map.set(p.pid, p)` for each.
  unfoldable pub set_all : List (ProcessInfo F) → Map ℕ (ProcessInfo F) → Map ℕ (ProcessInfo F)
  set_all [] m = m
  set_all (p ∷ ps) m = set_all ps (insert p.pid p m)

  -- `map.delete(pid)` for each.
  unfoldable pub delete_all : List ℕ → Map ℕ (ProcessInfo F) → Map ℕ (ProcessInfo F)
  delete_all [] m = m
  delete_all (pid ∷ pids) m = delete_all pids (remove pid m)

  unfoldable pub changed_map : Diff F → List (ProcessInfo F) → Map ℕ (ProcessInfo F)
  unfolding set_all delete_all
  changed_map d processes =
      set_all d.updated (set_all d.added (delete_all d.removed (set_all processes [])))

  unfoldable pub apply_diff : Diff F → List (ProcessInfo F) → List (ProcessInfo F)
  unfolding changed_map
  apply_diff d processes = sort_by_pid (values (changed_map d processes))

  -- What a client shows that has got all messages of an outbox, the newest first: a snapshot
  -- replaces what is shown, and a difference changes it.
  unfoldable pub view_of : List (ServerMsg F) → List (ProcessInfo F)
  unfolding apply_diff
  view_of [] = []
  view_of (ServerMsg.snapshot s ∷ earlier) = s.processes
  view_of (ServerMsg.diff d ∷ earlier) = apply_diff d (view_of earlier)
  view_of (_ ∷ earlier) = view_of earlier
