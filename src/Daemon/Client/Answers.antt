-- ===== src/Daemon/Client/Answers.antt =====
-- What an answer to a game prompt leads to (`ConfirmGame`, daemon/src/main.rs).
use nicewatch.Prelude.{
  ℕ, ◌≡◌, ◌⊎◌, inl, inr, refl, ap, ◌∙◌, Bool, true, false, ◌&&◌, not, List, [], ◌∷◌, arith, ◌==◌,
  eq_iff, eq_refl, contains, contains-insert_new, retain, any, All,
}
use nicewatch.Prelude.Text.{Text, text_eq}
use nicewatch.Prelude.Maps.{Map, get, values, insert_sorted, is_some, contains_key}
use nicewatch.Priority.{Tier}
use nicewatch.Config.{Rule, put_rule, from_preset}
use nicewatch.Rules.{RuleSet, from_config, has_rule}
use nicewatch.Rules.Lookup.{last_match, from_config-last}
use nicewatch.Detect.Known.{KnownGames}
use nicewatch.Sync.Writing.{schedule_local_write}
use nicewatch.Sync.Edit.{upsert_preset_rule, preset_rule}
use nicewatch.Wire.{ProcessInfo, GamePrompt, GameAnswer}
use nicewatch.Daemon.{Memory}
use nicewatch.Daemon.Prompts.{names_of, fresh_game_names, Named}
use nicewatch.Daemon.Prompts.Asked.{IsAskable, fresh_game_names-IsAskable}
use nicewatch.Daemon.Client.{
  Server, Context, confirm_game, answer_game, broadcast_snapshot, drop_prompts,
}

-- No prompt of the list is for the name.
abbrev pub is_prompted : Text → List GamePrompt → Bool
is_prompted name prompts = any (λ p. p.name == name) prompts

drop_prompts-is_prompted :
    (name other : Text) (prompts : List GamePrompt)
    → is_prompted other (drop_prompts name prompts)
      ≡ (not (name == other) && is_prompted other prompts)
unfolding drop_prompts retain any
drop_prompts-is_prompted name other [] = ground arith
drop_prompts-is_prompted name other (p ∷ prompts) = ground (
  arith,
  drop_prompts-is_prompted name other prompts,
  eq_iff p.name name,
  eq_iff p.name other,
  eq_iff name other,
)

-- A rule that has been put in matches its name.
put_rule-matched :
    (name : Text) (r : Rule) (m : Map Text Rule)
    → r.match_name ≡ name
    → is_some (last_match name (values (put_rule name r m))) ≡ true
unfolding put_rule last_match values insert_sorted
put_rule-matched name r [] e = ground (arith, eq_iff r.match_name name)
put_rule-matched name r ((key, rule) ∷ m) e =
    ground (arith, put_rule-matched name r m e, eq_iff r.match_name name)

set_tier-has_rule :
    {F : Type 0}
    → (c : Context F) (name : Text) (tier : Tier) (s : Server F)
    → has_rule (from_config (upsert_preset_rule c.host name tier s.sync).active) name ≡ true
unfolding has_rule contains_key upsert_preset_rule schedule_local_write preset_rule from_preset
set_tier-has_rule c name tier s =
    ap is_some (from_config-last (upsert_preset_rule c.host name tier s.sync).active name)
    ∙ put_rule-matched name (preset_rule name tier (get name s.sync.active.rules))
        s.sync.active.rules refl

-- A name that has a rule or is suppressed is not among the names that may be asked about.
settled_apart :
    (set : RuleSet) (m : Memory) (known : KnownGames) (name : Text) (ns : List Named)
    → (has_rule set name ≡ true) ⊎ (contains m.suppressed_until_exit name ≡ true)
    → All (IsAskable set m known) ns
    → contains (names_of ns) name ≡ false
unfolding contains
settled_apart set m known name [] h a = refl
settled_apart set m known name (n ∷ ns) h (p, a) = ground (
  arith,
  p.not_suppressed,
  p.without_rule,
  eq_iff n.0 name,
  settled_apart set m known name ns h a,
)

answered :
    {F : Type 0}
    → (c : Context F) (name : Text) (answer : GameAnswer) (s : Server F)
    → (has_rule (confirm_game c name answer s).set name ≡ true)
      ⊎ (contains (confirm_game c name answer s).memory.suppressed_until_exit name ≡ true)
unfolding confirm_game answer_game broadcast_snapshot
answered c name GameAnswer.yes s = inl (set_tier-has_rule c name Tier.game s)
answered c name GameAnswer.no s = inl (set_tier-has_rule c name Tier.software s)
answered c name GameAnswer.not_now s =
    inr
      (contains-insert_new name name s.memory.suppressed_until_exit ∙ ground (arith, eq_refl name))

dropped :
    {F : Type 0}
    → (c : Context F) (name : Text) (answer : GameAnswer) (s : Server F) (other : Text)
    → is_prompted other (confirm_game c name answer s).pending_prompts
      ≡ (not (name == other) && is_prompted other s.pending_prompts)
unfolding confirm_game answer_game broadcast_snapshot
dropped c name GameAnswer.yes s other = drop_prompts-is_prompted name other s.pending_prompts
dropped c name GameAnswer.no s other = drop_prompts-is_prompted name other s.pending_prompts
dropped c name GameAnswer.not_now s other = drop_prompts-is_prompted name other s.pending_prompts

-- Whatever the answer to a prompt, no prompt for the name waits any more and the prompts for other
-- names still do; and a poll that finds the rules and the memory that the answer left does not ask
-- about the name again, whatever processes run.
pub answer_settles :
    {F : Type 0}
    → (c : Context F) (name : Text) (answer : GameAnswer) (s : Server F) (known : KnownGames)
      (full : Map ℕ (ProcessInfo F)) (other : Text)
    → (is_prompted other (confirm_game c name answer s).pending_prompts
        ≡ (not (name == other) && is_prompted other s.pending_prompts))
      × (contains
            (names_of (
              fresh_game_names
                (confirm_game c name answer s).set
                (confirm_game c name answer s).memory
                known
                full))
            name
          ≡ false)
answer_settles c name answer s known full other =
    let s' = confirm_game c name answer s in
    (
      dropped c name answer s other,
      settled_apart s'.set s'.memory known name (fresh_game_names s'.set s'.memory known full)
          (answered c name answer s) (fresh_game_names-IsAskable s'.set s'.memory known full),
    )
