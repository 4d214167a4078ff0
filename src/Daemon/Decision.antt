-- ===== src/Daemon/Decision.antt =====
-- Which processes the poll loop of daemon/src/main.rs leaves alone.
use nicewatch.Prelude.{ℕ, ◌-◌, ◌≡◌, refl, Bool, true, false, none, arith, contains}
use nicewatch.Prelude.Text.{Text, text_eq}
use nicewatch.Prelude.Maps.{Map, contains_key}
use nicewatch.Proc.{ProcEntry}
use nicewatch.Detect.{GameFlags, no_flags, is_game}
use nicewatch.Detect.Known.{KnownGames}
use nicewatch.Rules.{RuleSet, untouched, resolve, has_rule}
use nicewatch.Daemon.{Identity, Memory, decide, is_ours, is_untouchable, poll_flags, cgroup_request}

-- A process of another user is never touched by a daemon without privileges: no target, no cgroup
-- and no game flags, whatever the rules and the clients say.
pub foreign_untouched :
    (who : Identity) (set : RuleSet) (m : Memory) (e : ProcEntry) (flags : GameFlags) (now : ℕ)
    (known : KnownGames) (fullscreen : ProcEntry → Bool) (cache : Map ℕ GameFlags)
    → is_untouchable who e ≡ true
    → (decide who set m e flags now ≡ untouched)
      × ((cgroup_request (decide who set m e flags now)).1 ≡ none)
      × (poll_flags known fullscreen who set m cache e ≡ (no_flags, cache))
unfolding decide poll_flags cgroup_request
foreign_untouched who set m e flags now known fullscreen cache h =
    (ground arith, ground arith, ground arith)

without_rule :
    (set : RuleSet) (name : Text) (flags : GameFlags) (age : ℕ)
    → has_rule set name ≡ false
    → is_game flags ≡ false
    → resolve set name flags age ≡ untouched
unfolding has_rule contains_key resolve
without_rule set name flags age h g = ground arith

no_flags_quiet : is_game no_flags ≡ false
unfolding is_game
no_flags_quiet = refl

-- The daemon's own programs are never flagged as games, so that without a rule and without a
-- client's "not now" for their name they are not touched.
pub own_untouched :
    (who : Identity) (set : RuleSet) (m : Memory) (e : ProcEntry) (now : ℕ) (known : KnownGames)
    (fullscreen : ProcEntry → Bool) (cache : Map ℕ GameFlags)
    → is_ours who e ≡ true
    → has_rule set e.name ≡ false
    → contains m.instance_games e.name ≡ false
    → decide who set m e (poll_flags known fullscreen who set m cache e).0 now ≡ untouched
unfolding decide poll_flags
own_untouched who set m e now known fullscreen cache ours none_set not_instance =
    let quiet = without_rule set e.name no_flags (now - e.start_secs) none_set no_flags_quiet in
    rw ours (ground (arith, quiet))
