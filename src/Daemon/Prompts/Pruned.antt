-- ===== src/Daemon/Prompts/Pruned.antt =====
-- What the daemon forgets of names that have exited, and what it does without clients
-- (daemon/src/main.rs).
use nicewatch.Prelude.{
  ◌≡◌, refl, Bool, ◌&&◌, ◌||◌, not, List, [], ◌∷◌, ◌++◌, arith, ◌==◌, eq_iff, contains,
  contains-discard, contains-insert_new,
}
use nicewatch.Prelude.Text.{Text, text_eq}
use nicewatch.Daemon.{Memory}
use nicewatch.Daemon.Prompts.{
  forget_name, forget_all, prune, Named, names_of, Asking, prompt_one, prompt_all,
}

contains-append :
    (xs ys : List Text) (a : Text) → contains (xs ++ ys) a ≡ (contains xs a || contains ys a)
unfolding contains
contains-append [] ys a = refl
contains-append (x ∷ xs) ys a = ground (arith, contains-append xs ys a)

abbrev kept : List Text → List Text → Text → Bool
kept names_seen names x = contains names_seen x || not (contains names x)

-- The three sets of the memory lose the same names.
record Loses (m m' : Memory) (x : Text) (keep : Bool) : Type 0 where
  prompted : contains m'.prompted_names x ≡ (contains m.prompted_names x && keep)
  instances : contains m'.instance_games x ≡ (contains m.instance_games x && keep)
  suppressed : contains m'.suppressed_until_exit x ≡ (contains m.suppressed_until_exit x && keep)

forget_name-Loses :
    (seen : List Text) (n : Text) (m : Memory) (x : Text)
    → Loses m (forget_name seen n m) x (contains seen x || not (n == x))
unfolding forget_name
forget_name-Loses seen n m x = record {
  prompted = ground (arith, eq_iff n x, contains-discard n x m.prompted_names);
  instances = ground (arith, eq_iff n x, contains-discard n x m.instance_games);
  suppressed = ground (arith, eq_iff n x, contains-discard n x m.suppressed_until_exit);
}

forget_all-Loses :
    (seen names : List Text) (m : Memory) (x : Text)
    → Loses m (forget_all seen names m) x (kept seen names x)
unfolding forget_all contains
forget_all-Loses seen [] m x = record {
  prompted = ground arith;
  instances = ground arith;
  suppressed = ground arith;
}
forget_all-Loses seen (n ∷ names) m x =
    let one = forget_name-Loses seen n m x in
    let rest = forget_all-Loses seen names (forget_name seen n m) x in
    record {
      prompted = ground (arith, one.prompted, rest.prompted);
      instances = ground (arith, one.instances, rest.instances);
      suppressed = ground (arith, one.suppressed, rest.suppressed);
    }

-- After a poll, the daemon remembers exactly the names that it remembered and that a process of the
-- poll has.
pub prune-exact :
    (seen : List Text) (m : Memory) (x : Text)
    → (contains (prune seen m).prompted_names x ≡ (contains m.prompted_names x && contains seen x))
      × (contains (prune seen m).instance_games x
          ≡ (contains m.instance_games x && contains seen x))
      × (contains (prune seen m).suppressed_until_exit x
          ≡ (contains m.suppressed_until_exit x && contains seen x))
unfolding prune
prune-exact seen m x =
    let names = m.suppressed_until_exit ++ m.instance_games in
    let all = forget_all-Loses seen (m.prompted_names ++ names) m x in
    let outer = contains-append m.prompted_names names x in
    let inner = contains-append m.suppressed_until_exit m.instance_games x in
    (
      ground (arith, all.prompted, outer, inner),
      ground (arith, all.instances, outer, inner),
      ground (arith, all.suppressed, outer, inner),
    )

-- Two states of the asking, where the first has become the second without a client to ask.
record IsSilent (a b : Asking) (names : List Text) (x : Text) : Type 0 where
  pending : b.pending_prompts ≡ a.pending_prompts
  asked : b.asked ≡ a.asked
  instances :
      contains b.memory.instance_games x ≡ (contains names x || contains a.memory.instance_games x)
  suppressed :
      contains b.memory.suppressed_until_exit x
      ≡ (contains names x || contains a.memory.suppressed_until_exit x)

prompt_all-IsSilent :
    (names : List Named) (a : Asking) (x : Text)
    → IsSilent a (prompt_all 0 names a) (names_of names) x
unfolding prompt_all prompt_one contains
prompt_all-IsSilent [] a x = record {
  pending = refl;
  asked = refl;
  instances = refl;
  suppressed = refl;
}
prompt_all-IsSilent ((n, pid) ∷ names) a x =
    let one = prompt_one 0 (n, pid) a in
    let rest = prompt_all-IsSilent names one x in
    record {
      pending = rest.pending;
      asked = rest.asked;
      instances = ground (arith, rest.instances, contains-insert_new n x a.memory.instance_games);
      suppressed =
          ground (arith, rest.suppressed, contains-insert_new n x a.memory.suppressed_until_exit);
    }

-- A daemon without clients asks nothing: exactly the names it would ask about become games of this
-- run, that it does not ask about until they exit, beside those that were.
pub prompt_all-alone :
    (names : List Named) (a : Asking) (x : Text)
    → ((prompt_all 0 names a).pending_prompts ≡ a.pending_prompts)
      × ((prompt_all 0 names a).asked ≡ a.asked)
      × (contains (prompt_all 0 names a).memory.instance_games x
          ≡ (contains (names_of names) x || contains a.memory.instance_games x))
      × (contains (prompt_all 0 names a).memory.suppressed_until_exit x
          ≡ (contains (names_of names) x || contains a.memory.suppressed_until_exit x))
prompt_all-alone names a x =
    let s = prompt_all-IsSilent names a x in (s.pending, s.asked, s.instances, s.suppressed)
