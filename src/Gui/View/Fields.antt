-- ===== src/Gui/View/Fields.antt =====
-- The fields of an entry that a difference compares (daemon/src/main.rs).
use nicewatch.Prelude.{
  ℕ, nat_eq, ◌≡◌, refl, sym, ap, Bool, true, false, not, ◌||◌, Option, none, some, if◌then◌else◌,
  eq_iff, ◌==◌, Eq,
}
use nicewatch.Prelude.Int.{ℤ, int_eq}
use nicewatch.Prelude.Text.{Text, text_eq}
use nicewatch.Priority.{Tier, tier_eq, IoniceClass, class_eq}
use nicewatch.Wire.{ProcessInfo}
use nicewatch.Daemon.Tables.{process_changed, same_tier}

-- What of an entry a difference keeps up to date: all but the percentage, the executable and the
-- start time.
pub record Core : Type 0 where
  pub pid : ℕ
  pub ppid : ℕ
  pub name : Text
  pub user : Text
  pub mem_kb : ℕ
  pub status : Text
  pub nice : ℤ
  pub ionice_class : IoniceClass
  pub ionice_priority : ℕ
  pub tier : Option Tier
  pub capped : Bool
  pub game_detected : Bool

module _ {F : Type 0} where
  abbrev pub core : ProcessInfo F → Core
  core i = record {
    pid = i.pid;
    ppid = i.ppid;
    name = i.name;
    user = i.user;
    mem_kb = i.mem_kb;
    status = i.status;
    nice = i.nice;
    ionice_class = i.ionice_class;
    ionice_priority = i.ionice_priority;
    tier = i.tier;
    capped = i.capped;
    game_detected = i.game_detected;
  }

  abbrev pub core_of : Option (ProcessInfo F) → Option Core
  core_of none = none
  core_of (some i) = some (core i)

same_tier_iff : (a b : Option Tier) → same_tier a b ≡ true → a ≡ b
same_tier_iff none none e = refl
same_tier_iff none (some b) e = cc
same_tier_iff (some a) none e = cc
same_tier_iff (some a) (some b) e = ap (λ t. some t) ((eq_iff a b).0 e)

or_false : (x y : Bool) → (x || y) ≡ false → (x ≡ false) × (y ≡ false)
or_false true y e = cc
or_false false y e = (refl, e)

kept_true : (x : Bool) → not x ≡ false → x ≡ true
kept_true true e = refl
kept_true false e = cc

equal_of {ℓ} : {A : Type ℓ} ⦃impl : Eq A⦄ → (a b : A) → not (a == b) ≡ false → a ≡ b
equal_of a b e = (eq_iff a b).0 (kept_true (a == b) e)

same_flag_iff : (x y : Bool) → (if x then not y else y) ≡ false → x ≡ y
same_flag_iff true y e = sym (kept_true y e)
same_flag_iff false y e = sym e

module _ {F : Type 0} (moved : F → F → Bool) where
  pub unchanged-core :
      (a b : ProcessInfo F) → a.pid ≡ b.pid → process_changed moved a b ≡ false → core a ≡ core b
  unfolding process_changed
  unchanged-core a b e u =
      let (u1, game) = or_false _ _ u in
      let (u2, capped) = or_false _ _ u1 in
      let (u3, tier) = or_false _ _ u2 in
      let (u4, prio) = or_false _ _ u3 in
      let (u5, class) = or_false _ _ u4 in
      let (u6, nice) = or_false _ _ u5 in
      let (u7, status) = or_false _ _ u6 in
      let (u8, mem) = or_false _ _ u7 in
      let (u9, cpu) = or_false _ _ u8 in
      let (u10, user) = or_false _ _ u9 in
      let (ppid, name) = or_false _ _ u10 in
      λ i. record {
        pid = e i;
        ppid = equal_of a.ppid b.ppid ppid i;
        name = equal_of a.name b.name name i;
        user = equal_of a.user b.user user i;
        mem_kb = equal_of a.mem_kb b.mem_kb mem i;
        status = equal_of a.status b.status status i;
        nice = equal_of a.nice b.nice nice i;
        ionice_class = equal_of a.ionice_class b.ionice_class class i;
        ionice_priority = equal_of a.ionice_priority b.ionice_priority prio i;
        tier = same_tier_iff a.tier b.tier (kept_true (same_tier a.tier b.tier) tier) i;
        capped = same_flag_iff a.capped b.capped capped i;
        game_detected = same_flag_iff a.game_detected b.game_detected game i;
      }
