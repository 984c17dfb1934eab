-- ===== src/Mdm/Handlers/Information.antt =====
-- ack_device_information of commandment/mdm/handlers.py. What the schema makes of the message, or
-- raises, is an argument; its attributes are columns that the schema names, never the key.
pub mod Collision
use commandment.Base.{
  String, List, [], ◌∷◌, All, Bool-cases, inl, inr, ◌∙◌, ◌≡◌, refl, Bool, arith, eq_iff, str_eq,
  if◌then◌else◌, Option, none, some,
}
use commandment.Python.Values.{
  Value, Fields, end, field, get, contains, contains-iff-get, put, get_or,
}
use commandment.Python.Dict.{IsDict}
use commandment.Python.Exec.{Result, Exec, lift, ◌>>=◌, ◌>>◌}
use commandment.Python.Spec.{Spec, Spec-lift, Spec-bind}
use commandment.Store.Rows.{Device}
use commandment.Store.Session.{Session, commit, put_device}
use commandment.Store.Tables.{IsGood, HasDevice}
use commandment.Mdm.Keeps.{Keeps-commit, put_device-HasDevice}

-- schema.load(response).data['QueryResponses']
abbrev pub LoadInformation : Type 0
LoadInformation = Fields → Result Fields

-- The columns by the attribute names of the schema, but the UDID.
abbrev columns : List (String × (Value → Device → Device))
columns =
    ("device_name", λ v d. record d { device_name = v })
    ∷ ("os_version", λ v d. record d { os_version = v })
    ∷ ("build_version", λ v d. record d { build_version = v })
    ∷ ("model_name", λ v d. record d { model_name = v })
    ∷ ("model", λ v d. record d { model = v })
    ∷ ("product_name", λ v d. record d { product_name = v })
    ∷ ("serial_number", λ v d. record d { serial_number = v })
    ∷ ("imei", λ v d. record d { imei = v })
    ∷ ("meid", λ v d. record d { meid = v })
    ∷ []

set_column : List (String × (Value → Device → Device)) → String → Value → Device → Device
unfolding put
set_column [] k v d = record d { other = put k v d.other }
set_column ((name, setter) ∷ rest) k v d =
    if str_eq k name then setter v d else set_column rest k v d

-- setattr(device, k, v)
unfoldable pub set_attribute : String → Value → Device → Device
unfolding set_column
set_attribute k v d = if str_eq k "udid" then record d { udid = v } else set_column columns k v d

unfoldable pub set_attributes : Fields → Device → Device
set_attributes end d = d
set_attributes (field k v attributes) d = set_attributes attributes (set_attribute k v d)

-- ack_device_information
unfoldable pub ack_device_information : LoadInformation → Device → Fields → Exec Session (Unit {0})
unfolding put_device commit
ack_device_information load d response = do
  attributes ← lift (load response)
  put_device (set_attributes attributes d)
  commit

-- What every column keeps and `other` does not reach is kept.
set_column_keeps :
    {A : Type 0} (f : Device → A) (cs : List (String × (Value → Device → Device)))
    → All (λ c. (v : Value) (d : Device) → f (c.1 v d) ≡ f d) cs
    → ((fields : Fields) (d : Device) → f (record d { other = fields }) ≡ f d)
    → (k : String) (v : Value) (d : Device) → f (set_column cs k v d) ≡ f d
unfolding set_column
set_column_keeps f [] h o k v d = o _ d
set_column_keeps f ((name, setter) ∷ rest) h o k v d = elim (Bool-cases (str_eq k name)) [
  | inl same ↦ rw same (h.0 v d)
  | inr other ↦ rw other (set_column_keeps f rest h.1 o k v d)
]

set_attribute-udid :
    (k : String) (v : Value) (d : Device)
    → (set_attribute k v d).udid ≡ (if str_eq k "udid" then v else d.udid)
unfolding set_attribute
set_attribute-udid k v d = elim (Bool-cases (str_eq k "udid")) [
  | inl same ↦ rw same refl
  | inr other ↦ rw other (
      set_column_keeps (λ e. e.udid) columns
        (
          (λ v d. refl),
          (
            (λ v d. refl),
            (
              (λ v d. refl),
              (
                (λ v d. refl),
                (
                  (λ v d. refl),
                  ((λ v d. refl), ((λ v d. refl), ((λ v d. refl), ((λ v d. refl), tt)))),
                ),
              ),
            ),
          ),
        )
        (λ fs d. refl) k v d)
]

set_attribute-id : (k : String) (v : Value) (d : Device) → (set_attribute k v d).id ≡ d.id
unfolding set_attribute
set_attribute-id k v d = elim (Bool-cases (str_eq k "udid")) [
  | inl same ↦ rw same refl
  | inr other ↦ rw other (
      set_column_keeps (λ e. e.id) columns
        (
          (λ v d. refl),
          (
            (λ v d. refl),
            (
              (λ v d. refl),
              (
                (λ v d. refl),
                (
                  (λ v d. refl),
                  ((λ v d. refl), ((λ v d. refl), ((λ v d. refl), ((λ v d. refl), tt)))),
                ),
              ),
            ),
          ),
        )
        (λ fs d. refl) k v d)
]

pub set_attributes-id : (attributes : Fields) (d : Device) → (set_attributes attributes d).id ≡ d.id
unfolding set_attributes
set_attributes-id end d = refl
set_attributes-id (field k v attributes) d =
    ground (arith, set_attributes-id attributes (set_attribute k v d), set_attribute-id k v d)

-- The UDID becomes the reported one, where one is reported.
pub set_attributes-udid :
    (attributes : Fields) (d : Device)
    → IsDict attributes
    → (set_attributes attributes d).udid ≡ get_or "udid" d.udid attributes
unfolding set_attributes get_or get contains
set_attributes-udid end d h = refl
set_attributes-udid (field k v attributes) d h = ground (
  arith,
  eq_iff k "udid",
  contains-iff-get k attributes,
  set_attribute-udid k v d,
  set_attributes-udid attributes (set_attribute k v d) h.1,
)

-- Given a device row that is in the tables, and a response whose attributes name no key twice and
-- no other UDID than that of the row, ack_device_information keeps the invariant of the stored and
-- of the working tables, however it ends.
pub ack_device_information-IsGood :
    (load : LoadInformation) (d : Device) (response : Fields)
    → ((attributes : Fields)
        → load response ≡ Result.ok attributes
        → IsDict attributes × (get_or "udid" d.udid attributes ≡ d.udid))
    → Spec (HasDevice d) (ack_device_information load d response) (λ _. IsGood) IsGood
unfolding ack_device_information
ack_device_information-IsGood load d response same =
    Spec-bind
      (λ attributes s.
        HasDevice d s × (get_or "udid" d.udid attributes ≡ d.udid) × IsDict attributes)
      _ (lift (load response)) _
      (Spec-lift _ (load response) (λ a e s h. (h, (same a e).1, (same a e).0)) (λ s h. h.good))
      λ a. record {
        at = λ s h.
            let put =
              put_device-HasDevice d (set_attributes a d) (set_attributes-id a d)
                (set_attributes-udid a d h.2 ∙ h.1) in
            let stored =
              Spec-bind (λ _. HasDevice (set_attributes a d)) (λ _. IsGood) _ (λ _. commit) put
                (λ _. record { at = λ t g. Keeps-commit.good.at t g.good }) in
            stored.at s h.0;
      }
