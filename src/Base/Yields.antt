-- ===== src/Base/Yields.antt =====
-- What a service call yields whenever it is not refused, along the chain of its steps.
use mathlib.Core.Path.{◌≡◌, refl}
use mathlib.Core.Bool.{Bool, true, false}
use mathlib.Core.Option.{Option, none, some}
use alpha_pos_local.Base.Tests.{if◌then◌else◌}
use alpha_pos_local.Base.Results.{Outcome, ok, err, ◌>>=◌, ◌>>◌, or_raise, raise_if}

module _ {E A : Type 0} (P : A → Type 0) where
  -- The value of an accepted call has the property.
  abbrev pub Yields : Outcome E A → Type 0
  Yields (ok a) = P a
  Yields (err e) = Unit {0}

  pub Yields-of : (m : Outcome E A) → ((a : A) → m ≡ ok a → P a) → Yields m
  Yields-of (ok a) h = h a refl
  Yields-of (err e) h = tt

  pub if_Yields :
      (test : Bool) (m n : Outcome E A)
      → (test ≡ true → Yields m)
      → (test ≡ false → Yields n)
      → Yields (if test then m else n)
  if_Yields true m n h k = h refl
  if_Yields false m n h k = k refl

  pub bind-Yields :
      {B : Type 0} (m : Outcome E B) (f : B → Outcome E A)
      → ((b : B) → m ≡ ok b → Yields (f b))
      → Yields (m >>= f)
  bind-Yields (ok b) f h = h b refl
  bind-Yields (err e) f h = tt

  pub raise-Yields :
      (test : Bool) (e : E) (m : Outcome E A)
      → (test ≡ false → Yields m)
      → Yields (raise_if test e >> m)
  raise-Yields true e m h = tt
  raise-Yields false e m h = h refl

  pub or_raise-Yields :
      {B : Type 0} (o : Option B) (e : E) (f : B → Outcome E A)
      → ((b : B) → o ≡ some b → Yields (f b))
      → Yields (or_raise o e >>= f)
  or_raise-Yields none e f h = tt
  or_raise-Yields (some b) e f h = h b refl

  pub yields_ok : (m : Outcome E A) (a : A) → Yields m → m ≡ ok a → P a
  yields_ok m a h e = rw e at h

-- A step of which something is known already.
pub bind_known :
    {E A B : Type 0} (P : A → Type 0) (Q : B → Type 0) (m : Outcome E B) (f : B → Outcome E A)
    → Yields Q m
    → ((b : B) → Q b → Yields P (f b))
    → Yields P (m >>= f)
bind_known P Q (ok b) f q h = h b q
bind_known P Q (err e) f q h = tt

pub Yields-both :
    {E A : Type 0} (P Q : A → Type 0) (m : Outcome E A)
    → Yields P m
    → Yields Q m
    → Yields (λ a. P a × Q a) m
Yields-both P Q (ok a) p q = (p, q)
Yields-both P Q (err e) p q = tt

pub Yields-map :
    {E A : Type 0} (P Q : A → Type 0) (m : Outcome E A)
    → ((a : A) → P a → Q a)
    → Yields P m
    → Yields Q m
Yields-map P Q (ok a) f p = f a p
Yields-map P Q (err e) f p = tt
