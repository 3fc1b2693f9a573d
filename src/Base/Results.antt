-- ===== src/Base/Results.antt =====
-- `Result<T, E>`, and the monad of code that changes a world and may fail. The world comes back
-- after an error too: what was written stays written.
use mathlib.Core.Path.{◌≡◌, refl, sym, ap, ◌∙◌}
use mathlib.Core.Logic.{◌⊎◌, inl, inr}
use mathlib.Core.Bool.{Bool, true, false}
use native.Mathlib.Omega.{arith}

pub data Result (E : Type 0) (A : Type 0) : Type 0 where
  ok : A → Result E A
  err : E → Result E A

module _ {E : Type 0} {A : Type 0} where
  abbrev pub is_ok : Result E A → Bool
  is_ok (ok a) = true
  is_ok (err e) = false

  pub Result-cases : (r : Result E A) → ((a : A) × (r ≡ ok a)) ⊎ ((e : E) × (r ≡ err e))
  Result-cases (ok a) = inl (a, refl)
  Result-cases (err e) = inr (e, refl)

abbrev pub map_err : {E F A : Type 0} → (E → F) → Result E A → Result F A
map_err f (ok a) = ok a
map_err f (err e) = err (f e)

abbrev pub map_ok : {E A B : Type 0} → (A → B) → Result E A → Result E B
map_ok f (ok a) = ok (f a)
map_ok f (err e) = err e

-- The `?` operator, on a result.
abbrev pub and_then : {E A B : Type 0} → Result E A → (A → Result E B) → Result E B
and_then (ok a) f = f a
and_then (err e) f = err e

-- A program over a world `W`.
abbrev pub Program : Type 0 → Type 0 → Type 0 → Type 0
Program W E A = W → Result E A × W

module _ {W : Type 0} {E : Type 0} {A : Type 0} where
  abbrev pub pure : A → Program W E A
  pure a w = (ok a, w)

  abbrev pub raise : E → Program W E A
  raise e w = (err e, w)

  abbrev pub lift : Result E A → Program W E A
  lift r w = (r, w)

-- What follows a step, by the step's outcome.
abbrev pub continue : {W E A B : Type 0} → Result E A × W → (A → Program W E B) → Result E B × W
continue (ok a, w) f = f a w
continue (err e, w) f = (err e, w)

infixl 5 ◌>>=◌ ◌>>◌
abbrev pub ◌>>=◌ : {W E A B : Type 0} → Program W E A → (A → Program W E B) → Program W E B
◌>>=◌ m f w = continue (m w) f

abbrev pub ◌>>◌ : {W E B : Type 0} → Program W E (Unit {0}) → Program W E B → Program W E B
m >> k = m >>= λ _. k

-- `?` with a `From` conversion, and `.map_err(f)?`.
abbrev pub with_error : {W E F A : Type 0} → (E → F) → Program W E A → Program W F A
with_error f m w = (map_err f (m w).0, (m w).1)

-- `match result { Ok(..) => .., Err(..) => .. }`
abbrev pub attempt : {W E F A : Type 0} → Program W E A → Program W F (Result E A)
attempt m w = (ok (m w).0, (m w).1)

-- `if condition { return Err(error) }`
abbrev pub raise_if : {W E : Type 0} → Bool → E → Program W E (Unit {0})
raise_if true e w = (err e, w)
raise_if false e w = (ok tt, w)

abbrev pub check_that : {E : Type 0} → Bool → E → Result E (Unit {0})
check_that true e = ok tt
check_that false e = err e

-- A bind that ends well: its first part did, and the rest ran from where that ended.
pub bind_ok :
    {W E A B : Type 0} (m : Program W E A) (f : A → Program W E B) (w : W) (b : B)
    → ((m >>= f) w).0 ≡ ok b
    → (a : A) × ((m w).0 ≡ ok a) × ((m >>= f) w ≡ f a (m w).1)
bind_ok {W} {E} {A} {B} m f w b h = go (m w) h
  where
    go :
        (r : Result E A × W)
        → (continue r f).0 ≡ ok b
        → (a : A) × (r.0 ≡ ok a) × (continue r f ≡ f a r.1)
    go (ok a, w') h = (a, refl, refl)
    go (err e, w') h = cc

-- A bind whose first part fails.
pub bind_err :
    {W E A B : Type 0} (m : Program W E A) (f : A → Program W E B) (w : W) (e : E)
    → (m w).0 ≡ err e
    → (m >>= f) w ≡ (err e, (m w).1)
bind_err {W} {E} {A} {B} m f w e h = go (m w) h
  where
    go : (r : Result E A × W) → r.0 ≡ err e → continue r f ≡ (err e, r.1)
    go (ok a, w') h = cc
    go (err x, w') h = cc

-- A check that passes: its condition does not hold, and the state stays.
pub raise_if_ok :
    {W E : Type 0} (b : Bool) (e : E) (w : W) (u : Unit {0})
    → (raise_if b e w).0 ≡ ok u
    → (b ≡ false) × ((raise_if b e w).1 ≡ w)
raise_if_ok true e w u h = cc
raise_if_ok false e w u h = (refl, refl)

-- The rest of a bind that ends well ends well too.
pub bind_parts :
    {W E A B : Type 0} (m : Program W E A) (f : A → Program W E B) (w : W) (b : B)
    → ((m >>= f) w).0 ≡ ok b
    → (a : A) × ((m w).0 ≡ ok a) × ((f a (m w).1).0 ≡ ok b)
bind_parts m f w b h =
    let (a, first, rest) = bind_ok m f w b h in (a, first, sym (ap (λ r. r.0) rest) ∙ h)

-- The error of a part is what the whole maps it to.
pub with_error_ok :
    {W E F A : Type 0} (f : E → F) (m : Program W E A) (w : W) (a : A)
    → (with_error f m w).0 ≡ ok a
    → (m w).0 ≡ ok a
with_error_ok {W} {E} {F} {A} f m w a h = go (m w).0 h
  where
    go : (r : Result E A) → map_err f r ≡ ok a → r ≡ ok a
    go (ok x) h = ground arith
    go (err e) h = cc
