-- ===== src/Python/Spec.antt =====
-- What a sequence of statements establishes, by how it ends: `Q` of the result and the state, or
-- `E` of the state where it raises. One rule for each way to build a sequence.
use commandment.Base.{◌≡◌, refl, Bool, true, false, if◌then◌else◌}
use commandment.Python.Exec.{Exn, Result, ok, err, Exec, pure, lift, raise, ◌>>=◌}

abbrev pub Ends : {S A : Type 0} → (A → S → Type 0) → (S → Type 0) → Result A × S → Type 0
Ends Q E (ok a, s) = Q a s
Ends Q E (err e, s) = E s

pub record Spec {S A : Type 0} (P : S → Type 0) (m : Exec S A) (Q : A → S → Type 0) (E : S → Type 0)
    : Type 0 where
  pub at : (s : S) → P s → Ends Q E (m s)

continue-Ends :
    {S : Type 0} {E : S → Type 0} {A B : Type 0} (Q : A → S → Type 0) (R : B → S → Type 0)
    (f : A → Exec S B)
    → ((a : A) → Spec (Q a) (f a) R E)
    → (r : Result A) (s : S) → Ends Q E (r, s)
    → Ends R E ((lift r >>= f) s)
continue-Ends Q R f h (ok a) s k = (h a).at s k
continue-Ends Q R f h (err e) s k = k

module _ {S : Type 0} {P E : S → Type 0} where
  pub Spec-pure :
      {A : Type 0} (Q : A → S → Type 0) (a : A) → ((s : S) → P s → Q a s) → Spec P (pure a) Q E
  Spec-pure Q a h = record { at = h }

  pub Spec-raise :
      {A : Type 0} (Q : A → S → Type 0) (e : Exn) → ((s : S) → P s → E s) → Spec P (raise e) Q E
  Spec-raise Q e h = record { at = h }

  pub Spec-lift :
      {A : Type 0} (Q : A → S → Type 0) (r : Result A)
      → ((a : A) → r ≡ ok a → (s : S) → P s → Q a s)
      → ((s : S) → P s → E s)
      → Spec P (lift r) Q E
  Spec-lift Q (ok a) h f = record { at = h a refl }
  Spec-lift Q (err e) h f = record { at = f }

  pub Spec-bind :
      {A B : Type 0} (Q : A → S → Type 0) (R : B → S → Type 0) (m : Exec S A) (f : A → Exec S B)
      → Spec P m Q E
      → ((a : A) → Spec (Q a) (f a) R E)
      → Spec P (m >>= f) R E
  Spec-bind Q R m f k h = record {
    at = λ s p. let (r, s') = m s in continue-Ends Q R f h r s' (k.at s p);
  }

  pub Spec-if :
      {A : Type 0} (Q : A → S → Type 0) (b : Bool) (m n : Exec S A)
      → (b ≡ true → Spec P m Q E)
      → (b ≡ false → Spec P n Q E)
      → Spec P (if b then m else n) Q E
  Spec-if Q true m n h k = h refl
  Spec-if Q false m n h k = k refl

pub Ends-result :
    {S A : Type 0} (Q : A → S → Type 0) (E : S → Type 0) (r : Result A) (s : S)
    → ((a : A) → r ≡ ok a → Q a s)
    → E s
    → Ends Q E (r, s)
Ends-result Q E (ok a) s h k = h a refl
Ends-result Q E (err e) s h k = k

-- A property of the state that holds however the statements end.
pub Ends-same :
    {S A : Type 0} (P : S → Type 0) (r : Result A) (s : S) → Ends (λ _. P) P (r, s) → P s
Ends-same P (ok a) s h = h
Ends-same P (err e) s h = h
