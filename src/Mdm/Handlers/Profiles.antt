-- ===== src/Mdm/Handlers/Profiles.antt =====
-- ack_profile_list against the sets that its documentation names.
use commandment.Base.{
  String, ◌≡◌, ◌≢◌, refl, sym, ap, ◌∙◌, Bool, true, false, not, ◌&&◌, ◌||◌, Option, none, some,
  List, [], ◌∷◌, keep, any, All, arith, eq_iff, Bool-cases, inl, inr,
}
use commandment.Python.Values.{truthy}
use commandment.Store.Rows.{Profile, InstalledProfile}
use commandment.Mdm.Handlers.{has_uuid, is_desired, undesire, reconcile}

-- The desired profiles that the device has not reported.
abbrev pub to_install : List InstalledProfile → List Profile → List Profile
to_install reported desired =
    keep (λ p. not (any (λ q. has_uuid q.payload_uuid p) reported)) desired

-- The reported profiles that are managed and not desired.
abbrev pub to_remove : List InstalledProfile → List Profile → List InstalledProfile
to_remove reported desired =
    keep (λ q. truthy q.is_managed && not (is_desired q.payload_uuid desired)) reported

-- No UUID is reported twice.
abbrev pub AreDistinct : List InstalledProfile → Type 0
AreDistinct [] = Unit
AreDistinct (q ∷ qs) =
    All (λ r. (uuid : String) → q.payload_uuid ≡ some uuid → r.payload_uuid ≢ some uuid) qs
    × AreDistinct qs

keep-true : {A : Type 0} (xs : List A) → keep (λ x. true) xs ≡ xs
keep-true [] = refl
keep-true (x ∷ xs) = ap (λ ys. x ∷ ys) (keep-true xs)

keep-keep :
    {A : Type 0} (f g : A → Bool) (xs : List A) → keep f (keep g xs) ≡ keep (λ x. g x && f x) xs
keep-keep f g [] = refl
keep-keep f g (x ∷ xs) = ground (arith, keep-keep f g xs)

keep_same :
    {A : Type 0} (f g : A → Bool) (xs : List A) → ((x : A) → f x ≡ g x) → keep f xs ≡ keep g xs
keep_same f g [] h = refl
keep_same f g (x ∷ xs) h = ground (arith, h x, keep_same f g xs h)

-- With the UUID not desired, nothing is filtered by it.
absent :
    (f : Profile → Bool) (u : Option String) (ds : List Profile)
    → is_desired u ds ≡ false
    → keep (λ p. not (has_uuid u p || f p)) ds ≡ keep (λ p. not (f p)) ds
unfolding is_desired
absent f u [] h = refl
absent f u (p ∷ ds) h = ground (arith, absent f u ds)

-- One more reported profile, with its UUID desired.
install_desired :
    (q : InstalledProfile) (qs : List InstalledProfile) (desired : List Profile)
    → to_install qs (undesire q.payload_uuid desired) ≡ to_install (q ∷ qs) desired
unfolding undesire
install_desired q qs desired =
    keep-keep (λ p. not (any (λ r. has_uuid r.payload_uuid p) qs))
      (λ p. not (has_uuid q.payload_uuid p)) desired
    ∙ keep_same _ _ desired (λ p. ground arith)

install-reconcile :
    (reported : List InstalledProfile) (desired : List Profile)
    → (reconcile reported desired).0 ≡ to_install reported desired
unfolding reconcile
install-reconcile [] desired = sym (keep-true desired)
install-reconcile (q ∷ qs) desired = elim (Bool-cases (is_desired q.payload_uuid desired)) [
  | inl e ↦
      rw e (install-reconcile qs (undesire q.payload_uuid desired) ∙ install_desired q qs desired)
  | inr e ↦ rw e (
      install-reconcile qs desired
      ∙ sym (absent (λ p. any (λ r. has_uuid r.payload_uuid p) qs) q.payload_uuid desired e))
]

-- Another UUID is desired as before.
is_desired-undesire :
    (u v : Option String) (desired : List Profile)
    → ((uuid : String) → u ≡ some uuid → v ≢ some uuid)
    → is_desired v (undesire u desired) ≡ is_desired v desired
unfolding is_desired undesire
is_desired-undesire none v desired h = ap (any (has_uuid v)) (keep-true desired)
is_desired-undesire (some a) none [] h = refl
is_desired-undesire (some a) none (p ∷ desired) h =
    ground (arith, is_desired-undesire (some a) none desired h)
is_desired-undesire (some a) (some b) [] h = refl
is_desired-undesire (some a) (some b) (p ∷ desired) h =
    let other : a ≢ b = λ e. h a refl (ap some (sym e)) in
    ground
      (arith, eq_iff p.uuid a, eq_iff p.uuid b, is_desired-undesire (some a) (some b) desired h)

remove_others :
    (u : Option String) (qs : List InstalledProfile) (desired : List Profile)
    → All (λ r. (uuid : String) → u ≡ some uuid → r.payload_uuid ≢ some uuid) qs
    → to_remove qs (undesire u desired) ≡ to_remove qs desired
remove_others u [] desired h = refl
remove_others u (r ∷ qs) desired h =
    rw (is_desired-undesire u r.payload_uuid desired h.0, remove_others u qs desired h.1)

remove-reconcile :
    (reported : List InstalledProfile) (desired : List Profile)
    → AreDistinct reported
    → (reconcile reported desired).1 ≡ to_remove reported desired
unfolding reconcile
remove-reconcile [] desired h = refl
remove-reconcile (q ∷ qs) desired h = elim (Bool-cases (is_desired q.payload_uuid desired)) [
  | inl e ↦ rw e (
      remove-reconcile qs (undesire q.payload_uuid desired) h.1
      ∙ remove_others q.payload_uuid qs desired h.0
      ∙ ground arith)
  | inr e ↦ rw e ground (arith, remove-reconcile qs desired h.1)
]

-- The loop.
pub reconcile-sets :
    (reported : List InstalledProfile) (desired : List Profile)
    → AreDistinct reported
    → reconcile reported desired ≡ (to_install reported desired, to_remove reported desired)
reconcile-sets reported desired h =
    rw (sym (install-reconcile reported desired), sym (remove-reconcile reported desired h))
