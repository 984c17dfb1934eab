-- ===== src/Vpp/Operation.antt =====
-- VPPLicenseOperation and its subclasses of commandment/vpp/vpp.py, and VPP.save.
use commandment.Base.{
  String, ◌≡◌, refl, Bool, true, false, Option, none, some, List, [], ◌∷◌, ◌++◌, All, All-append,
  keep, arith, if◌then◌else◌, inl, inr, Bool-cases, subst,
}
use commandment.Python.Values.{Value}
use commandment.Python.Exec.{Result, ok, err, value_error}

-- LicenseAssociationType
pub data Association : Type 0 where
  client_user_id serial_number : Association

-- LicenseDisassociationType
pub data Disassociation : Type 0 where
  client_user_id serial_number license_id : Disassociation

abbrev pub association_eq : Association → Association → Bool
association_eq Association.client_user_id Association.client_user_id = true
association_eq Association.serial_number Association.serial_number = true
association_eq _ _ = false

abbrev pub disassociation_eq : Disassociation → Disassociation → Bool
disassociation_eq Disassociation.client_user_id Disassociation.client_user_id = true
disassociation_eq Disassociation.serial_number Disassociation.serial_number = true
disassociation_eq Disassociation.license_id Disassociation.license_id = true
disassociation_eq _ _ = false

pub record Operation : Type 0 where
  pub adam_id : Value
  pub pricing_param : Value
  pub associate : List (Association × String)
  pub disassociate : List (Disassociation × String)
  pub association_type : Option Association
  pub disassociation_type : Option Disassociation

-- VPPLicenseOperation(adam_id, pricing_param, …)
unfoldable pub license_operation :
    Value → Value → Option Association → Option Disassociation → Operation
license_operation adam_id pricing_param a d = record {
  adam_id = adam_id;
  pricing_param = pricing_param;
  associate = [];
  disassociate = [];
  association_type = a;
  disassociation_type = d;
}

-- VPPUserLicenseOperation
unfoldable pub user_license_operation : Value → Value → Operation
unfolding license_operation
user_license_operation adam_id pricing_param =
    license_operation adam_id pricing_param (some Association.client_user_id)
      (some Disassociation.client_user_id)

-- VPPDeviceLicenseOperation
unfoldable pub device_license_operation : Value → Value → Operation
unfolding license_operation
device_license_operation adam_id pricing_param =
    license_operation adam_id pricing_param (some Association.serial_number)
      (some Disassociation.serial_number)

abbrev agrees : Option Association → Association → Bool
agrees none a = true
agrees (some b) a = association_eq a b

abbrev fits : Option Disassociation → Disassociation → Bool
fits none d = true
fits (some e) d = disassociation_eq d e

-- VPPLicenseOperation.add
unfoldable pub add : Association → String → Operation → Result Operation
add a value op =
    if agrees op.association_type a
    then ok (record op { association_type = some a; associate = op.associate ++ (a, value) ∷ [] })
    else err value_error

-- VPPLicenseOperation.remove
unfoldable pub remove : Disassociation → String → Operation → Result Operation
remove d value op =
    if fits op.disassociation_type d
    then ok (record op {
      disassociation_type = some d;
      disassociate = op.disassociate ++ (d, value) ∷ [];
    })
    else err value_error

unfoldable pub additions_for_type : Association → Operation → List (Association × String)
additions_for_type a op = keep (λ (b, v). association_eq b a) op.associate

unfoldable pub removals_for_type : Disassociation → Operation → List (Disassociation × String)
removals_for_type d op = keep (λ (e, v). disassociation_eq e d) op.disassociate

-- Every item of the batch has the type of the batch.
pub record IsUniform (op : Operation) : Type 0 where
  pub additions : All (λ (a, v). op.association_type ≡ some a) op.associate
  pub removals : All (λ (d, v). op.disassociation_type ≡ some d) op.disassociate

-- What the source does with a batch.
pub data Built : Operation → Type 0 where
  generic :
      (adam_id pricing_param : Value) (a : Option Association) (d : Option Disassociation)
      → Built (license_operation adam_id pricing_param a d)
  for_users : (adam_id pricing_param : Value) → Built (user_license_operation adam_id pricing_param)
  for_devices :
      (adam_id pricing_param : Value) → Built (device_license_operation adam_id pricing_param)
  added :
      {op : Operation} (a : Association) (value : String) (op' : Operation)
      → Built op
      → add a value op ≡ ok op'
      → Built op'
  removed :
      {op : Operation} (d : Disassociation) (value : String) (op' : Operation)
      → Built op
      → remove d value op ≡ ok op'
      → Built op'

pub keep-All {ℓ} :
    {A : Type ℓ} (p : A → Bool) (xs : List A) → All (λ x. p x ≡ true) xs → keep p xs ≡ xs
keep-All p [] h = refl
keep-All p (x ∷ xs) h = ground (arith, keep-All p xs h.1)

association_eq_refl : (a : Association) → association_eq a a ≡ true
association_eq_refl Association.client_user_id = refl
association_eq_refl Association.serial_number = refl

association_eq_sound : (a b : Association) → association_eq a b ≡ true → a ≡ b
association_eq_sound Association.client_user_id b h = ground arith
association_eq_sound Association.serial_number b h = ground arith

disassociation_eq_sound : (a b : Disassociation) → disassociation_eq a b ≡ true → a ≡ b
disassociation_eq_sound Disassociation.client_user_id b h = ground arith
disassociation_eq_sound Disassociation.serial_number b h = ground arith
disassociation_eq_sound Disassociation.license_id b h = ground arith

-- An accepted item has the type of the items before it.
retype :
    (t : Option Association) (a : Association) (xs : List (Association × String))
    → agrees t a ≡ true
    → All (λ (b, v). t ≡ some b) xs
    → All (λ (b, v). some a ≡ some b) xs
retype t a [] h k = tt
retype none a (x ∷ xs) h k = (cc (k.0), retype none a xs h k.1)
retype (some b) a (x ∷ xs) h k = (cc (k.0, association_eq_sound a b h), retype (some b) a xs h k.1)

retype_removal :
    (t : Option Disassociation) (d : Disassociation) (xs : List (Disassociation × String))
    → fits t d ≡ true
    → All (λ (e, v). t ≡ some e) xs
    → All (λ (e, v). some d ≡ some e) xs
retype_removal t d [] h k = tt
retype_removal none d (x ∷ xs) h k = (cc (k.0), retype_removal none d xs h k.1)
retype_removal (some e) d (x ∷ xs) h k =
    (cc (k.0, disassociation_eq_sound d e h), retype_removal (some e) d xs h k.1)

add-IsUniform :
    (a : Association) (value : String) (op op' : Operation)
    → add a value op ≡ ok op'
    → IsUniform op
    → IsUniform op'
unfolding add
add-IsUniform a value op op' e h = elim (Bool-cases (agrees op.association_type a)) [
  | inl same ↦
      let result : record op {
        association_type = some a;
        associate = op.associate ++ (a, value) ∷ [];
      }
          ≡ op' =
        ground arith in
      subst IsUniform result (record {
        additions =
            All-append (λ (b, v). some a ≡ some b) op.associate ((a, value) ∷ [])
              (retype op.association_type a op.associate same h.additions) (refl, tt);
        removals = h.removals;
      })
  | inr other ↦ absurd (ground arith)
]

remove-IsUniform :
    (d : Disassociation) (value : String) (op op' : Operation)
    → remove d value op ≡ ok op'
    → IsUniform op
    → IsUniform op'
unfolding remove
remove-IsUniform d value op op' e h = elim (Bool-cases (fits op.disassociation_type d)) [
  | inl same ↦
      let result : record op {
        disassociation_type = some d;
        disassociate = op.disassociate ++ (d, value) ∷ [];
      }
          ≡ op' =
        ground arith in
      subst IsUniform result (record {
        additions = h.additions;
        removals =
            All-append (λ (b, v). some d ≡ some b) op.disassociate ((d, value) ∷ [])
              (retype_removal op.disassociation_type d op.disassociate same h.removals) (refl, tt);
      })
  | inr other ↦ absurd (ground arith)
]

-- Whatever a license operation has accepted by add and remove, in whatever order, its associations
-- all have its association type and its disassociations all have its disassociation type.
pub Built-IsUniform : {op : Operation} → Built op → IsUniform op
unfolding license_operation user_license_operation device_license_operation
Built-IsUniform (generic i p a d) = record { additions = tt; removals = tt }
Built-IsUniform (for_users i p) = record { additions = tt; removals = tt }
Built-IsUniform (for_devices i p) = record { additions = tt; removals = tt }
Built-IsUniform (added a value op' b e) = add-IsUniform a value _ op' e (Built-IsUniform b)
Built-IsUniform (removed d value op' b e) = remove-IsUniform d value _ op' e (Built-IsUniform b)
