-- ===== src/Applier/Ioprio.antt =====
-- The encoding of io priorities (`set_ioprio` and `get_ioprio`, daemon/src/applier.rs).
use nicewatch.Prelude.{
  ℕ, zero, suc, ◌<◌, ◌≡◌, refl, Bool, true, false, ◌&&◌, if◌then◌else◌, Option, none, some, arith,
  eqb, ◌==◌,
}
use nicewatch.Priority.{IoniceClass, class_eq, class_beq, class_beq_iff}
use nicewatch.Applier.{CurrentIoprio, ioprio_value, get_ioprio}

-- A test holds of every number under a bound.
every_under : (ℕ → Bool) → ℕ → Bool
every_under test zero = true
every_under test (suc top) = let lower = every_under test top in if test top then lower else false

every_under-holds :
    (test : ℕ → Bool) (bound v : ℕ) → v < bound → every_under test bound ≡ true → test v ≡ true
unfolding every_under
every_under-holds test zero v small every = absurd (omega arith)
every_under-holds test (suc top) v small every = ground (arith, every_under-holds test top v)

reads : Option CurrentIoprio → IoniceClass → ℕ → Bool
reads none class p = false
reads (some io) class p = (io.class == class) && eqb io.priority p

reads-eq :
    (o : Option CurrentIoprio) (class : IoniceClass) (p : ℕ)
    → reads o class p ≡ true
    → o ≡ some (record { class = class; priority = p })
unfolding reads
reads-eq none class p h = cc
reads-eq (some io) class p h = ground (arith, class_beq_iff io.class class)

abbrev reads_back : IoniceClass → ℕ → Bool
reads_back class p = reads (get_ioprio (some (ioprio_value class p))) class p

table : (class : IoniceClass) → every_under (reads_back class) 256 ≡ true
unfolding every_under reads get_ioprio ioprio_value class_beq
table IoniceClass.none_class = refl
table IoniceClass.realtime_class = refl
table IoniceClass.best_effort = refl
table IoniceClass.idle = refl

-- The kernel's value of any io class and any `u8` priority decodes to that class and priority.
pub get_ioprio-ioprio_value :
    (class : IoniceClass) (priority : ℕ)
    → priority < 256
    → get_ioprio (some (ioprio_value class priority))
      ≡ some (record { class = class; priority = priority })
get_ioprio-ioprio_value class priority h =
    reads-eq (get_ioprio (some (ioprio_value class priority))) class priority
      (every_under-holds (reads_back class) 256 priority h (table class))
