-- ===== src/Priority/Order.antt =====
-- The order of the presets (common/src/lib.rs, `Tier::preset`).
use nicewatch.Prelude.{ℕ, ◌≤◌, ◌<◌, ◌≡◌, arith}
use nicewatch.Prelude.Int.{pos, negsuc, ◌≤ℤ◌, ◌<ℤ◌}
use nicewatch.Priority.{Tier, IoniceClass, Preset, preset}

-- The position of a tier in `Tier::ALL`.
abbrev pub rank : Tier → ℕ
rank Tier.software = 0
rank Tier.game = 1
rank Tier.streaming = 2
rank Tier.realtime = 3

-- What the kernel takes without a realtime class: best-effort io, and values in range.
pub record IsSafe (p : Preset) : Type 0 where
  pub best_effort : p.ionice_class ≡ IoniceClass.best_effort
  pub nice_low : negsuc 19 ≤ℤ p.nice
  pub nice_high : p.nice ≤ℤ pos 19
  pub priority : p.ionice_priority ≤ 7

-- Every tier's preset is safe: io class best-effort, niceness in -20..19, io priority at most 7.
pub preset-IsSafe : (t : Tier) → IsSafe (preset t)
unfolding preset
preset-IsSafe Tier.software = ground arith
preset-IsSafe _ = ground arith

-- A tier that comes later in `Tier::ALL` has a strictly lower niceness and a strictly lower (more
-- favourable) io priority.
pub preset_order :
    (s t : Tier)
    → rank s < rank t
    → ((preset t).nice <ℤ (preset s).nice)
      × ((preset t).ionice_priority < (preset s).ionice_priority)
unfolding preset
preset_order s t h = ground arith
