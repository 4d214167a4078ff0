-- ===== src/Daemon/Prompts/Asked.antt =====
-- Which names are asked about, and how often (daemon/src/main.rs).
use nicewatch.Prelude.{
  ℕ, nat_eq, ap, Option, none, some, ◌≡◌, refl, true, false, ◌||◌, List, [], ◌∷◌, arith, ◌==◌,
  eq_iff, contains, contains-insert_new, All, Bool-cases, inl, inr, ◌∙◌,
}
use nicewatch.Prelude.Text.{Text, text_eq}
use nicewatch.Prelude.Maps.{Map, get, values}
use nicewatch.Rules.{RuleSet, has_rule}
use nicewatch.Detect.Known.{KnownGames, is_known_name}
use nicewatch.Wire.{ProcessInfo}
use nicewatch.Daemon.{Memory}
use nicewatch.Daemon.Prompts.{
  Named, Asking, pair_lt, same_pair, insert_pair, sort_pairs, dedup, is_fresh, fresh_names,
  names_of, fresh_game_names, prompt_one, prompt_all, prune,
}
use nicewatch.Daemon.Prompts.Pruned.{prune-exact}
use nicewatch.Daemon.Client.{
  Server, Context, handle_client_msg, set_tier_of, answer_game, confirm_game, broadcast_snapshot,
}
use nicewatch.Wire.{ClientMsg, GameAnswer}
use nicewatch.Priority.{Tier}

module _ (P : Named → Type 0) where
  insert_pair-All : (x : Named) (ys : List Named) → P x → All P ys → All P (insert_pair x ys)
  unfolding insert_pair
  insert_pair-All x [] p a = (p, tt)
  insert_pair-All x (y ∷ ys) p (q, a) = elim (Bool-cases (pair_lt y x)) [
    | inl before ↦ rw before (q, insert_pair-All x ys p a)
    | inr after ↦ rw after (p, (q, a))
  ]

  sort_pairs-All : (xs : List Named) → All P xs → All P (sort_pairs xs)
  unfolding sort_pairs
  sort_pairs-All [] a = tt
  sort_pairs-All (x ∷ xs) (p, a) = insert_pair-All x (sort_pairs xs) p (sort_pairs-All xs a)

  dedup-All : (xs : List Named) → All P xs → All P (dedup xs)
  unfolding dedup
  dedup-All [] a = tt
  dedup-All (x ∷ []) a = a
  dedup-All (x ∷ y ∷ ys) (p, a) = elim (Bool-cases (same_pair x y)) [
    | inl same ↦ rw same (dedup-All (y ∷ ys) a)
    | inr differ ↦ rw differ (p, dedup-All (y ∷ ys) a)
  ]

-- A name that may be asked about: no catalog entry for it, no rule, no earlier prompt in this run
-- and no answer that lasts until it exits.
pub record IsAskable (set : RuleSet) (m : Memory) (known : KnownGames) (n : Named) : Type 0 where
  pub unknown : is_known_name known n.0 ≡ false
  pub without_rule : has_rule set n.0 ≡ false
  pub not_prompted : contains m.prompted_names n.0 ≡ false
  pub not_suppressed : contains m.suppressed_until_exit n.0 ≡ false

module _ {F : Type 0} (set : RuleSet) (m : Memory) (known : KnownGames) where
  is_fresh-IsAskable :
      (i : ProcessInfo F) → is_fresh set m known i ≡ true → IsAskable set m known (i.name, i.pid)
  unfolding is_fresh
  is_fresh-IsAskable i h = record {
    unknown = ground arith;
    without_rule = ground arith;
    not_prompted = ground arith;
    not_suppressed = ground arith;
  }

  fresh_names-All :
      (infos : List (ProcessInfo F)) → All (IsAskable set m known) (fresh_names set m known infos)
  unfolding fresh_names
  fresh_names-All [] = tt
  fresh_names-All (i ∷ infos) = elim (Bool-cases (is_fresh set m known i)) [
    | inl fresh ↦ rw fresh (is_fresh-IsAskable i fresh, fresh_names-All infos)
    | inr other ↦ rw other (fresh_names-All infos)
  ]

  -- Every name that a poll asks about has no entry in the catalog, no rule, no earlier prompt in
  -- this run, and no answer that lasts until it exits.
  pub fresh_game_names-IsAskable :
      (full : Map ℕ (ProcessInfo F))
      → All (IsAskable set m known) (fresh_game_names set m known full)
  unfolding fresh_game_names
  fresh_game_names-IsAskable full =
      let xs = fresh_names set m known (values full) in
      dedup-All (IsAskable set m known) (sort_pairs xs)
        (sort_pairs-All (IsAskable set m known) xs (fresh_names-All (values full)))

prompt_one-prompted :
    (count : ℕ) (n : Named) (a : Asking) (x : Text)
    → contains (prompt_one count n a).memory.prompted_names x
      ≡ (n.0 == x || contains a.memory.prompted_names x)
unfolding prompt_one
prompt_one-prompted count n a x = ground (arith, contains-insert_new n.0 x a.memory.prompted_names)

prompt_all-prompted :
    (count : ℕ) (ns : List Named) (a : Asking) (x : Text)
    → contains (prompt_all count ns a).memory.prompted_names x
      ≡ (contains (names_of ns) x || contains a.memory.prompted_names x)
unfolding prompt_all contains
prompt_all-prompted count [] a x = refl
prompt_all-prompted count (n ∷ ns) a x =
    ground (
      arith,
      prompt_one-prompted count n a x,
      prompt_all-prompted count ns (prompt_one count n a) x,
    )

prompted_apart :
    (set : RuleSet) (m : Memory) (known : KnownGames) (name : Text) (ns : List Named)
    → contains m.prompted_names name ≡ true
    → All (IsAskable set m known) ns
    → contains (names_of ns) name ≡ false
unfolding contains
prompted_apart set m known name [] h a = refl
prompted_apart set m known name (n ∷ ns) h (p, a) =
    ground (arith, p.not_prompted, eq_iff n.0 name, prompted_apart set m known name ns h a)

-- The memories that a memory becomes while processes of a name run on: it is pruned after a poll
-- that has seen the name, polls ask about further names, and requests of clients are served.
pub data IsLater (F : Type 0) (name : Text) (m : Memory) : Memory → Type 0 where
  now : IsLater F name m m
  after_prune :
      {m1 : Memory}
      → IsLater F name m m1
      → (seen : List Text) → contains seen name ≡ true
      → IsLater F name m (prune seen m1)
  after_prompts :
      {m1 : Memory}
      → IsLater F name m m1
      → (count : ℕ) (ns : List Named) (a : Asking) → a.memory ≡ m1
      → IsLater F name m (prompt_all count ns a).memory
  after_request :
      {m1 : Memory}
      → IsLater F name m m1
      → (c : Context F) (msg : ClientMsg) (s : Server F) → s.memory ≡ m1
      → IsLater F name m (handle_client_msg c msg s).memory

set_tier_of-prompted :
    {F : Type 0} (c : Context F) (o : Option (ProcessInfo F)) (tier : Tier) (s : Server F)
    → (set_tier_of c o tier s).memory.prompted_names ≡ s.memory.prompted_names
unfolding set_tier_of broadcast_snapshot
set_tier_of-prompted c none tier s = refl
set_tier_of-prompted c (some info) tier s = refl

confirm_game-prompted :
    {F : Type 0} (c : Context F) (name : Text) (answer : GameAnswer) (s : Server F)
    → (confirm_game c name answer s).memory.prompted_names ≡ s.memory.prompted_names
unfolding confirm_game answer_game broadcast_snapshot
confirm_game-prompted c name GameAnswer.yes s = refl
confirm_game-prompted c name GameAnswer.no s = refl
confirm_game-prompted c name GameAnswer.not_now s = refl

-- No request takes back that a name was asked about.
handle_client_msg-prompted :
    {F : Type 0} (c : Context F) (msg : ClientMsg) (s : Server F)
    → (handle_client_msg c msg s).memory.prompted_names ≡ s.memory.prompted_names
unfolding handle_client_msg broadcast_snapshot
handle_client_msg-prompted c (ClientMsg.hello kind) s = refl
handle_client_msg-prompted c ClientMsg.request_snapshot s = refl
handle_client_msg-prompted c (ClientMsg.set_poll_interval ms) s = refl
handle_client_msg-prompted c (ClientMsg.set_tier pid tier) s =
    set_tier_of-prompted c (get pid s.full_info) tier s
handle_client_msg-prompted c (ClientMsg.set_cap name pct) s = refl
handle_client_msg-prompted c (ClientMsg.confirm_game name answer) s =
    confirm_game-prompted c name answer s

IsLater-prompted :
    {F : Type 0} (name : Text) (m m1 : Memory)
    → contains m.prompted_names name ≡ true
    → IsLater F name m m1
    → contains m1.prompted_names name ≡ true
IsLater-prompted name m m1 h now = h
IsLater-prompted name m m1 h (after_prune {m1 = m2} l seen s) =
    (prune-exact seen m2 name).0 ∙ rw (IsLater-prompted name m m2 h l, s) refl
IsLater-prompted name m m1 h (after_prompts {m1 = m2} l count ns a e) =
    prompt_all-prompted count ns a name
    ∙ ground (
      arith,
      ap (λ (x : Memory). contains x.prompted_names name) e,
      IsLater-prompted name m m2 h l,
    )
IsLater-prompted name m m1 h (after_request {m1 = m2} l c msg s e) =
    ap (λ xs. contains xs name)
      (handle_client_msg-prompted c msg s ∙ ap (λ (x : Memory). x.prompted_names) e)
    ∙ IsLater-prompted name m m2 h l

-- A name that a poll has asked about is not asked about again, whatever processes, rules and
-- catalog a later poll finds, after any sequence of questions of polls, of requests of clients and of
-- prunings by polls that have seen a process of the name.
pub asked_once :
    {F : Type 0}
    → (set : RuleSet) (known : KnownGames) (count : ℕ) (ns : List Named) (a : Asking) (name : Text)
      (full : Map ℕ (ProcessInfo F)) {m : Memory}
    → contains (names_of ns) name ≡ true
    → IsLater F name (prompt_all count ns a).memory m
    → contains (names_of (fresh_game_names set m known full)) name ≡ false
asked_once set known count ns a name full {m} h later =
    prompted_apart set m known name (fresh_game_names set m known full)
      (IsLater-prompted name (prompt_all count ns a).memory m
        (prompt_all-prompted count ns a name ∙ ground arith) later)
      (fresh_game_names-IsAskable set m known full)
