-- ===== src/Priority.antt =====
-- common/src/lib.rs: the tiers, the io classes and the preset of each tier.
pub mod Order
use nicewatch.Prelude.{
  ℕ, ◌≡◌, ◌↔◌, Bool, true, false, ◌&&◌, List, [], ◌∷◌, arith, Eq, ◌==◌, if◌then◌else◌, eqb,
}
use nicewatch.Prelude.Int.{ℤ, pos, negsuc, eqb_ℤ}
use nicewatch.Prelude.Text.{Text, codes}

pub data Tier : Type 0 where
  software game streaming realtime : Tier

abbrev pub all_tiers : List Tier
all_tiers = Tier.software ∷ Tier.game ∷ Tier.streaming ∷ Tier.realtime ∷ []

unfoldable pub tier_label : Tier → Text
tier_label Tier.software = codes "Software"
tier_label Tier.game = codes "Game"
tier_label Tier.streaming = codes "Streaming"
tier_label Tier.realtime = codes "Realtime"

pub data IoniceClass : Type 0 where
  none_class realtime_class best_effort idle : IoniceClass

unfoldable pub class_label : IoniceClass → Text
class_label IoniceClass.none_class = codes "none"
class_label IoniceClass.realtime_class = codes "rt"
class_label IoniceClass.best_effort = codes "be"
class_label IoniceClass.idle = codes "idle"

-- `nice` is an `i32` and `ionice_priority` a `u8`.
pub record Preset : Type 0 where
  pub nice : ℤ
  pub ionice_class : IoniceClass
  pub ionice_priority : ℕ

unfoldable pub preset : Tier → Preset
preset Tier.software = record {
  nice = pos 0;
  ionice_class = IoniceClass.best_effort;
  ionice_priority = 4;
}
preset Tier.game = record {
  nice = negsuc 7;
  ionice_class = IoniceClass.best_effort;
  ionice_priority = 2;
}
preset Tier.streaming = record {
  nice = negsuc 9;
  ionice_class = IoniceClass.best_effort;
  ionice_priority = 1;
}
preset Tier.realtime = record {
  nice = negsuc 11;
  ionice_class = IoniceClass.best_effort;
  ionice_priority = 0;
}

-- The derived `PartialEq` of the two enumerations.
unfoldable pub tier_beq : Tier → Tier → Bool
tier_beq Tier.software Tier.software = true
tier_beq Tier.game Tier.game = true
tier_beq Tier.streaming Tier.streaming = true
tier_beq Tier.realtime Tier.realtime = true
tier_beq _ _ = false

unfoldable pub class_beq : IoniceClass → IoniceClass → Bool
class_beq IoniceClass.none_class IoniceClass.none_class = true
class_beq IoniceClass.realtime_class IoniceClass.realtime_class = true
class_beq IoniceClass.best_effort IoniceClass.best_effort = true
class_beq IoniceClass.idle IoniceClass.idle = true
class_beq _ _ = false

pub tier_beq_iff : (a b : Tier) → (tier_beq a b ≡ true) ↔ (a ≡ b)
unfolding tier_beq
tier_beq_iff a b = ground arith

pub class_beq_iff : (a b : IoniceClass) → (class_beq a b ≡ true) ↔ (a ≡ b)
unfolding class_beq
class_beq_iff a b = ground arith

instance abbrev pub tier_eq : Eq Tier
tier_eq = record { partial_eq = tier_beq; decides = tier_beq_iff }

instance abbrev pub class_eq : Eq IoniceClass
class_eq = record { partial_eq = class_beq; decides = class_beq_iff }
