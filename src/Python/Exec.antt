-- ===== src/Python/Exec.antt =====
-- Statements that change a state and may raise. What was written before an exception stays
-- written, so the state comes back beside the exception too.
use commandment.Base.{ℕ, String, ◌≡◌, refl, sym, ap, ◌∙◌, arith, ◌⊎◌, inl, inr, Option, none, some}

-- `http` is an `abort` with its status code
pub data Exn : Type 0 where
  http : ℕ → Exn
  -- DEPServiceError with the status of its response and its text, and DEPClientError
  service_error : ℕ → String → Exn
  client_error : Exn
  key_error : String → Exn
  value_error type_error attribute_error assertion_error runtime_error ssl_error : Exn
  no_result_found multiple_results_found stop_iteration index_error name_error : Exn
  integrity_error invalid_signature : Exn

pub data Result {ℓ} (A : Type ℓ) : Type ℓ where
  ok : A → Result A
  err : Exn → Result A

abbrev pub Exec {ℓ} : Type ℓ → Type ℓ → Type ℓ
Exec S A = S → Result A × S

module _ {ℓ} {S A : Type ℓ} where
  abbrev pub pure : A → Exec S A
  pure a s = (ok a, s)

  abbrev pub raise : Exn → Exec S A
  raise e s = (err e, s)

  abbrev pub lift : Result A → Exec S A
  lift r s = (r, s)

  abbrev pub gets : (S → A) → Exec S A
  gets f s = (ok (f s), s)

module _ {ℓ} {S A B : Type ℓ} where
  infixl 5 ◌>>=◌ ◌>>◌
  abbrev pub ◌>>=◌ : Exec S A → (A → Exec S B) → Exec S B
  ◌>>=◌ m f s = let (r, s') = m s in elim r [ ok a ↦ f a s' | err e ↦ (err e, s') ]

  abbrev pub ◌>>◌ : Exec S A → Exec S B → Exec S B
  m >> n = m >>= λ _. n

  pub bind-ok :
      (m : Exec S A) (f : A → Exec S B) (s s' : S) (a : A) → m s ≡ (ok a, s') → (m >>= f) s ≡ f a s'
  bind-ok m f s s' a e =
      ap (λ (x : Result A × S). elim x.0 [ ok b ↦ f b x.1 | err c ↦ (err c, x.1) ]) e

  pub bind-err :
      (m : Exec S A) (f : A → Exec S B) (s s' : S) (e : Exn)
      → m s ≡ (err e, s')
      → (m >>= f) s ≡ (err e, s')
  bind-err m f s s' e h =
      ap (λ (x : Result A × S). elim x.0 [ ok b ↦ f b x.1 | err c ↦ (err c, x.1) ]) h

abbrev pub modify : {S : Type 0} → (S → S) → Exec S (Unit {0})
modify f s = (ok tt, f s)

-- d[k] on a dictionary read as an option
abbrev pub or_raise {ℓ} : {A : Type ℓ} → Option A → Exn → Result A
or_raise none e = err e
or_raise (some a) e = ok a

pub Result-cases {ℓ} :
    {A : Type ℓ} (r : Result A) → ((a : A) × (r ≡ ok a)) ⊎ ((e : Exn) × (r ≡ err e))
Result-cases (ok a) = inl (a, refl)
Result-cases (err e) = inr (e, refl)

pub ok_inj : {A : Type 0} (a b : A) → ok a ≡ ok b → a ≡ b
ok_inj a b h = ap (λ r. elim r [ ok x ↦ x | err e ↦ a ]) h

pub or_raise-some : {A : Type 0} (o : Option A) (e : Exn) (a : A) → or_raise o e ≡ ok a → o ≡ some a
or_raise-some none e a h = ground arith
or_raise-some (some b) e a h = ap some (ok_inj b a h)

pub err_unique : {A : Type 0} (r : Result A) (c e : Exn) → r ≡ err c → r ≡ err e → c ≡ e
err_unique (ok a) c e h k = ground arith
err_unique (err b) c e h k = ap (λ r. elim r [ ok x ↦ c | err d ↦ d ]) (sym h ∙ k)

-- Where statements end well, so does the first of them.
pub record Ran {S A B : Type 0} (m : Exec S A) (f : A → Exec S B) (s : S) (b : B) (s'' : S)
    : Type 0 where
  pub value : A
  pub state : S
  pub first : m s ≡ (ok value, state)
  pub next : f value state ≡ (ok b, s'')

pub bind-Ran :
    {S A B : Type 0} (m : Exec S A) (f : A → Exec S B) (s : S) (b : B) (s'' : S)
    → (m >>= f) s ≡ (ok b, s'')
    → Ran m f s b s''
bind-Ran {S = S} {A = A} m f s b s'' h = split (m s).0 (m s).1 refl h
  where
    split :
        (r : Result A) (s' : S) → m s ≡ (r, s') → (lift r >>= f) s' ≡ (ok b, s'') → Ran m f s b s''
    split (ok a) s' e k = record { value = a; state = s'; first = e; next = k }
    split (err c) s' e k = ground arith
