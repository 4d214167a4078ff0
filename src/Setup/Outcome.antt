-- ===== src/Setup/Outcome.antt =====
-- What holds after a program of the installation that succeeds (daemon/src/setup.rs).
use nicewatch.Prelude.{◌≡◌, refl, some}
use nicewatch.Prelude.Text.{Text}
use nicewatch.Prelude.Paths.{FilePath, path_eq}
use nicewatch.Sync.Disk.{content_of}
use nicewatch.Setup.Machine.{Machine, Result, ok, err, M, next, ◌>>=◌}
use nicewatch.Setup.Traces.{file_at}

-- Where `before` holds and the program succeeds, `after` holds of its result.
abbrev pub Ensures : {A : Type 0} → (Machine → Type 0) → M A → (A → Machine → Type 0) → Type 0
Ensures {A} before p after = (m : Machine) (a : A) → before m → (p m).1 ≡ ok a → after a (p m).0

pub Ensures-next :
    {A B : Type 0}
    → (between : A → Machine → Type 0) (after : B → Machine → Type 0) (f : A → M B)
    → ((a : A) → Ensures (between a) (f a) after)
    → (r : Machine × Result A) (b : B) → ((a : A) → r.1 ≡ ok a → between a r.0)
    → (next f r).1 ≡ ok b
    → after b (next f r).0
Ensures-next between after f g (m, ok a) b h e = g a m b (h a refl) e
Ensures-next between after f g (m, err x) b h e = cc

pub Ensures-bind :
    {A B : Type 0}
    → (before : Machine → Type 0) (between : A → Machine → Type 0) (after : B → Machine → Type 0)
      (p : M A) (f : A → M B)
    → Ensures before p between
    → ((a : A) → Ensures (between a) (f a) after)
    → Ensures before (p >>= f) after
unfolding ◌>>=◌
Ensures-bind before between after p f hp hf m b pre e =
    Ensures-next between after f hf (p m) b (λ a ea. hp m a pre ea) e

abbrev pub Anything : Machine → Type 0
Anything m = Unit {0}

abbrev pub Has : FilePath → Text → Machine → Type 0
Has path text m = content_of (file_at path m) ≡ some text
