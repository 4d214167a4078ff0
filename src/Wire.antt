-- ===== src/Wire.antt =====
-- The messages between daemon and clients (common/src/lib.rs), over a type of `f32` percentages.
use nicewatch.Prelude.{ℕ, Bool, true, false, ◌&&◌, List, [], ◌∷◌, Option}
use nicewatch.Prelude.Int.{ℤ}
use nicewatch.Prelude.Text.{Text}
use nicewatch.Priority.{Tier, IoniceClass}

pub record ProcessInfo (F : Type 0) : Type 0 where
  pub pid : ℕ
  pub ppid : ℕ
  pub name : Text
  pub user : Text
  pub cpu_percent : F
  pub mem_kb : ℕ
  pub status : Text
  pub nice : ℤ
  pub ionice_class : IoniceClass
  pub ionice_priority : ℕ
  pub tier : Option Tier
  pub capped : Bool
  pub game_detected : Bool
  pub exe : Option Text
  pub start_secs : ℕ

pub record RuleInfo : Type 0 where
  pub name : Text
  pub match_name : Text
  pub tier : Option Tier
  pub nice : Option ℤ
  pub cpu_cap_percent : Option ℕ

pub record GamePrompt : Type 0 where
  pub name : Text
  pub pid : ℕ

pub record Snapshot (F : Type 0) : Type 0 where
  pub processes : List (ProcessInfo F)
  pub rules : List RuleInfo
  pub prompts : List GamePrompt
  pub poll_interval_ms : ℕ
  pub system_cpu : F
  pub system_mem_total_kb : ℕ
  pub system_mem_used_kb : ℕ

pub record Diff (F : Type 0) : Type 0 where
  pub added : List (ProcessInfo F)
  pub updated : List (ProcessInfo F)
  pub removed : List ℕ
  pub system_cpu : F
  pub system_mem_total_kb : ℕ
  pub system_mem_used_kb : ℕ

abbrev pub no_items {ℓ} : {A : Type ℓ} → List A → Bool
no_items [] = true
no_items (a ∷ xs) = false

-- `Diff::is_empty`
unfoldable pub diff_is_empty : {F : Type 0} → Diff F → Bool
diff_is_empty d = no_items d.added && no_items d.updated && no_items d.removed

pub data GameAnswer : Type 0 where
  yes no not_now : GameAnswer

pub data ServerMsg (F : Type 0) : Type 0 where
  hello : Text → Text → ℕ → ServerMsg F
  snapshot : Snapshot F → ServerMsg F
  diff : Diff F → ServerMsg F
  prompt_game : GamePrompt → ServerMsg F
  warning : Text → ServerMsg F

pub data ClientMsg : Type 0 where
  hello : Text → ClientMsg
  set_tier : ℕ → Tier → ClientMsg
  set_cap : Text → Option ℕ → ClientMsg
  confirm_game : Text → GameAnswer → ClientMsg
  set_poll_interval : ℕ → ClientMsg
  request_snapshot : ClientMsg
