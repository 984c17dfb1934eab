-- ===== src/Python/Fallible.antt =====
-- Code that changes no state and may raise.
use commandment.Base.{◌≡◌, refl, Bool, true, false, arith}
use commandment.Python.Exec.{assertion_error, Result, ok, err}

module _ {A B : Type 0} where
  infixl 5 ◌>>=◌
  abbrev pub ◌>>=◌ : Result A → (A → Result B) → Result B
  ◌>>=◌ (ok a) f = f a
  ◌>>=◌ (err e) f = err e

  -- Where a sequence ends well, so does its first part.
  pub first_ok :
      (r : Result A) (f : A → Result B) (b : B)
      → (r >>= f) ≡ ok b
      → (a : A) × (r ≡ ok a) × (f a ≡ ok b)
  first_ok (ok a) f b h = (a, refl, h)
  first_ok (err e) f b h = ground arith

-- assert b
abbrev pub assert : Bool → Result (Unit {0})
assert true = ok tt
assert false = err assertion_error
