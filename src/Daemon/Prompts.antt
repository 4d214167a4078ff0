-- ===== src/Daemon/Prompts.antt =====
-- Which names the daemon asks its clients about (daemon/src/main.rs).
pub mod Asked
pub mod Pruned
use nicewatch.Prelude.{
  ℕ, nat_eq, ◌≡◌, ◌↔◌, refl, Bool, true, false, ◌&&◌, ◌||◌, not, List, [], ◌∷◌, ◌++◌, Option, none,
  some, arith, if◌then◌else◌, ltb, eqb, ◌==◌, contains, contains-insert_new, contains-discard,
  insert_new, discard, All,
}
use nicewatch.Prelude.Text.{Text, text_eq, text_lt, text_beq_iff}
use nicewatch.Prelude.Maps.{Map, values}
use nicewatch.Rules.{RuleSet, has_rule}
use nicewatch.Detect.Known.{KnownGames, is_known_name}
use nicewatch.Wire.{ProcessInfo, GamePrompt}
use nicewatch.Daemon.{Memory}

-- A name and a pid, in the order of tuples.
abbrev pub Named : Type 0
Named = Text × ℕ

abbrev pub names_of : List Named → List Text
names_of [] = []
names_of (n ∷ ns) = n.0 ∷ names_of ns

pair_lt : Named → Named → Bool
pair_lt (a, p) (b, q) = text_lt a b || a == b && ltb p q

same_pair : Named → Named → Bool
same_pair (a, p) (b, q) = a == b && eqb p q

insert_pair : Named → List Named → List Named
unfolding pair_lt
insert_pair x [] = x ∷ []
insert_pair x (y ∷ ys) = let rest = insert_pair x ys in if pair_lt y x then y ∷ rest else x ∷ y ∷ ys

-- `sort`
sort_pairs : List Named → List Named
unfolding insert_pair
sort_pairs [] = []
sort_pairs (x ∷ xs) = insert_pair x (sort_pairs xs)

-- `dedup`
dedup : List Named → List Named
unfolding same_pair
dedup [] = []
dedup (x ∷ []) = x ∷ []
dedup (x ∷ y ∷ ys) = let rest = dedup (y ∷ ys) in if same_pair x y then rest else x ∷ rest

module _ {F : Type 0} (set : RuleSet) (m : Memory) (known : KnownGames) where
  -- The test of `fresh_game_names`.
  unfoldable pub is_fresh : ProcessInfo F → Bool
  is_fresh info =
      info.game_detected
      && not (is_known_name known info.name)
      && not (has_rule set info.name)
      && not (contains m.prompted_names info.name)
      && not (contains m.suppressed_until_exit info.name)

  unfoldable pub fresh_names : List (ProcessInfo F) → List Named
  unfolding is_fresh
  fresh_names [] = []
  fresh_names (info ∷ infos) =
      let rest = fresh_names infos in if is_fresh info then (info.name, info.pid) ∷ rest else rest

  unfoldable pub fresh_game_names : Map ℕ (ProcessInfo F) → List Named
  unfolding fresh_names sort_pairs dedup
  fresh_game_names full = dedup (sort_pairs (fresh_names (values full)))

-- What the loop over the fresh names changes: the memory, the prompts that wait for an answer, and
-- the prompts that are broadcast, the newest first.
pub record Asking : Type 0 where
  pub memory : Memory
  pub pending_prompts : List GamePrompt
  pub asked : List GamePrompt

-- One round of the loop; without a client, the name is answered "not now".
unfoldable pub prompt_one : ℕ → Named → Asking → Asking
prompt_one client_count (name, pid) a =
    let prompt : GamePrompt = record { name = name; pid = pid } in
    let prompted = insert_new name a.memory.prompted_names in
    if ltb 0 client_count
    then record {
      memory = record a.memory { prompted_names = prompted };
      pending_prompts = a.pending_prompts ++ (prompt ∷ []);
      asked = prompt ∷ a.asked;
    }
    else record a {
      memory = record {
        prompted_names = prompted;
        instance_games = insert_new name a.memory.instance_games;
        suppressed_until_exit = insert_new name a.memory.suppressed_until_exit;
      };
    }

unfoldable pub prompt_all : ℕ → List Named → Asking → Asking
unfolding prompt_one
prompt_all client_count [] a = a
prompt_all client_count (n ∷ names) a = prompt_all client_count names (prompt_one client_count n a)

-- The loop that prunes the memory of the names that have fully exited.
forget_name : List Text → Text → Memory → Memory
forget_name names_seen name m = if contains names_seen name then m else record {
  prompted_names = discard name m.prompted_names;
  instance_games = discard name m.instance_games;
  suppressed_until_exit = discard name m.suppressed_until_exit;
}

forget_all : List Text → List Text → Memory → Memory
unfolding forget_name
forget_all names_seen [] m = m
forget_all names_seen (n ∷ names) m = forget_all names_seen names (forget_name names_seen n m)

unfoldable pub prune : List Text → Memory → Memory
unfolding forget_all
prune names_seen m =
    forget_all names_seen (m.prompted_names ++ (m.suppressed_until_exit ++ m.instance_games)) m
