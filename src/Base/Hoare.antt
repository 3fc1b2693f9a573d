-- ===== src/Base/Hoare.antt =====
-- Programs with a condition on the state before, one on the outcome, and one on the state of an error.
use mathlib.Core.Path.{◌≡◌, refl, subst}
use native.Mathlib.Omega.{arith}
use mathlib.Core.Bool.{Bool, true, false}
use win_profile.Base.Tests.{if◌then◌else◌}
use win_profile.Base.Results.{Result, ok, err, Program, continue, ◌>>=◌, raise_if, pure}

abbrev pub Post : {W E A : Type 0} → (A → W → Type 0) → (W → Type 0) → Result E A × W → Type 0
Post Q X (ok a, w) = Q a w
Post Q X (err e, w) = X w

pub record Hoare {W E A : Type 0} (P : W → Type 0) (m : Program W E A) (Q : A → W → Type 0)
    (X : W → Type 0) : Type 0 where
  pub run : (w : W) → P w → Post Q X (m w)

module _ {W E : Type 0} (X : W → Type 0) where
  continue-Post :
      {A B : Type 0} (M : A → W → Type 0) (Q : B → W → Type 0) (r : Result E A × W)
      (f : A → Program W E B)
      → Post M X r
      → ((a : A) → Hoare (M a) (f a) Q X)
      → Post Q X (continue r f)
  continue-Post M Q (ok a, w) f h g = (g a).run w h
  continue-Post M Q (err e, w) f h g = h

  pub Hoare-bind :
      {A B : Type 0} (P : W → Type 0) (M : A → W → Type 0) (Q : B → W → Type 0) (m : Program W E A)
      (f : A → Program W E B)
      → Hoare P m M X
      → ((a : A) → Hoare (M a) (f a) Q X)
      → Hoare P (m >>= f) Q X
  Hoare-bind P M Q m f h g = record { run = λ w p. continue-Post M Q (m w) f (h.run w p) g }

  any_result :
      {A : Type 0} (P : W → Type 0) (r : Result E A × W)
      → P r.1
      → ((w : W) → P w → X w)
      → Post (λ _. P) X r
  any_result P (ok a, w) h weaken = h
  any_result P (err e, w) h weaken = weaken w h

  -- A program that keeps the condition, however it ends.
  pub Hoare-keeps :
      {A : Type 0} (P : W → Type 0) (m : Program W E A)
      → ((w : W) → P w → P (m w).1)
      → ((w : W) → P w → X w)
      → Hoare P m (λ _. P) X
  Hoare-keeps P m h weaken = record { run = λ w p. any_result P (m w) (h w p) weaken }

  pub Hoare-if :
      {A : Type 0} (P : W → Type 0) (Q : A → W → Type 0) (b : Bool) (m n : Program W E A)
      → Hoare P m Q X
      → Hoare P n Q X
      → Hoare P (if b then m else n) Q X
  Hoare-if P Q true m n hm hn = hm
  Hoare-if P Q false m n hm hn = hn

  raise_if-Post :
      (P : W → Type 0) (b : Bool) (e : E) (w : W)
      → P w
      → ((v : W) → P v → X v)
      → Post (λ _. P) X (raise_if b e w)
  raise_if-Post P true e w p weaken = weaken w p
  raise_if-Post P false e w p weaken = p

  pub Hoare-raise_if :
      (P : W → Type 0) (b : Bool) (e : E)
      → ((w : W) → P w → X w)
      → Hoare P (raise_if b e) (λ (_ : Unit {0}). P) X
  Hoare-raise_if P b e weaken = record { run = λ w p. raise_if-Post P b e w p weaken }

  pub Hoare-pure :
      {A : Type 0} (P : W → Type 0) (Q : A → W → Type 0) (a : A)
      → ((w : W) → P w → Q a w)
      → Hoare P (pure {E = E} a) Q X
  Hoare-pure P Q a weaken = record { run = weaken }

module _ {W E A : Type 0} (X Y : W → Type 0) (Q T : A → W → Type 0) where
  weaken-Post :
      (r : Result E A × W)
      → Post Q X r
      → ((a : A) (w : W) → Q a w → T a w)
      → ((w : W) → X w → Y w)
      → Post T Y r
  weaken-Post (ok a, w) h f g = f a w h
  weaken-Post (err e, w) h f g = g w h

  pub Hoare-weaken :
      (P : W → Type 0) (m : Program W E A)
      → Hoare P m Q X
      → ((a : A) (w : W) → Q a w → T a w)
      → ((w : W) → X w → Y w)
      → Hoare P m T Y
  Hoare-weaken P m h f g = record { run = λ w p. weaken-Post (m w) (h.run w p) f g }

-- One condition for both ends.
pub Post-always : {W E A : Type 0} (P : W → Type 0) (r : Result E A × W) → Post (λ _. P) P r → P r.1
Post-always P (ok a, w) h = h
Post-always P (err e, w) h = h

-- A run of a program that ends well only in states with a property.
pub record EndsIn {W E A : Type 0} (P : W → Type 0) (m : Program W E A) (w : W) : Type 0 where
  pub holds : (a : A) → (m w).0 ≡ ok a → P (m w).1

pub EndsIn-bind :
    {W E A B : Type 0} (P : W → Type 0) (m : Program W E A) (f : A → Program W E B) (w : W)
    → ((a : A) → (m w).0 ≡ ok a → EndsIn P (f a) (m w).1)
    → EndsIn P (m >>= f) w
EndsIn-bind {W} {E} {A} {B} P m f w h = record { holds = go (m w) h }
  where
    go :
        (r : Result E A × W)
        → ((a : A) → r.0 ≡ ok a → EndsIn P (f a) r.1)
        → (b : B) → (continue r f).0 ≡ ok b
        → P (continue r f).1
    go (ok a, v) g b e = (g a refl).holds b e
    go (err x, v) g b e = ground arith

-- Every result of a program has a property.
pub record Gives {S E A : Type 0} (Q : A → Type 0) (m : Program S E A) : Type 0 where
  pub holds : (s : S) (a : A) → (m s).0 ≡ ok a → Q a

pub Gives-bind :
    {S E A B : Type 0} (Q : B → Type 0) (m : Program S E A) (f : A → Program S E B)
    → ((a : A) (s : S) → (m s).0 ≡ ok a → Gives Q (f a))
    → Gives Q (m >>= f)
Gives-bind {S} {E} {A} {B} Q m f h = record { holds = λ s b e. go (m s) (h-at s) b e }
  where
    h-at : (s : S) (a : A) → (m s).0 ≡ ok a → Gives Q (f a)
    h-at s a e = h a s e

    go :
        (r : Result E A × S)
        → ((a : A) → r.0 ≡ ok a → Gives Q (f a))
        → (b : B) → (continue r f).0 ≡ ok b
        → Q b
    go (ok a, t) g b e = (g a refl).holds t b e
    go (err x, t) g b e = ground arith

pub Gives-pure : {S E A : Type 0} (Q : A → Type 0) (a : A) → Q a → Gives Q (pure {W = S} {E = E} a)
Gives-pure Q a q = record { holds = λ s b e. subst Q (ground arith) q }

-- A program keeps a property of the state, also where it fails.
pub record Maintains {W E A : Type 0} (P : W → Type 0) (m : Program W E A) : Type 0 where
  pub from : (w : W) → P w → P (m w).1

pub Maintains-bind :
    {W E A B : Type 0} (P : W → Type 0) (m : Program W E A) (f : A → Program W E B)
    → Maintains P m
    → ((a : A) → Maintains P (f a))
    → Maintains P (m >>= f)
Maintains-bind {W} {E} {A} {B} P m f h k = record { from = λ w p. go (m w) (h.from w p) }
  where
    go : (r : Result E A × W) → P r.1 → P (continue r f).1
    go (ok a, w) p = (k a).from w p
    go (err e, w) p = p

pub Maintains-raise_if :
    {W E : Type 0} (P : W → Type 0) (b : Bool) (e : E) → Maintains P (raise_if {W = W} b e)
Maintains-raise_if P true e = record { from = λ w p. p }
Maintains-raise_if P false e = record { from = λ w p. p }
