-- ===== src/Dep/Sync/Devices.antt =====
-- What the assignments of dep_fetch_devices leave of a device row and of a dictionary.
use commandment.Base.{
  ◌≡◌, refl, ap, ◌∙◌, String, Bool, true, false, Option, some, arith, str_eq, eq_iff, if◌then◌else◌,
}
use commandment.Python.Values.{
  Value, null, num, flag, Fields, end, field, get, get_or, put, get-put, contains,
}
use commandment.Python.Exec.{key_error, Result, ok, err, Exec, lift, gets, modify, ◌>>◌}
use commandment.Python.Spec.{Ends, Spec, Spec-pure, Spec-lift, Spec-bind, Spec-if, Ends-same}
use commandment.Store.Rows.{Device}
use commandment.Mdm.Endpoint.{item}
use commandment.Mdm.Handlers.Information.{set_attribute}
use commandment.Dep.Account.{DateParser}
use commandment.Dep.Rows.{
  is_assigned, without, delete_key, assign_item, assign_date, assign_profile_columns, update_device,
  parse_key, prepare_device,
}

-- What an update of a device row leaves.
pub record IsSameDevice (d e : Device) : Type 0 where
  pub id : e.id ≡ d.id
  pub udid : e.udid ≡ d.udid
  pub serial : e.serial_number ≡ d.serial_number

abbrev Stays : {A : Type 0} → Device → Exec Device A → Type 0
Stays d m = Spec (IsSameDevice d) m (λ _. IsSameDevice d) (IsSameDevice d)

then_same : (d e e' : Device) → IsSameDevice d e → IsSameDevice e e' → IsSameDevice d e'
then_same d e e' h k = record {
  id = k.id ∙ h.id;
  udid = k.udid ∙ h.udid;
  serial = k.serial ∙ h.serial;
}

module _ (parse : DateParser) (device : Fields) (d : Device) where
  lift-Stays : {A : Type 0} (r : Result A) → Stays d (lift r)
  lift-Stays r = Spec-lift _ r (λ a e s h. h) (λ s h. h)

  modify-Stays : (f : Device → Device) → ((e : Device) → IsSameDevice e (f e)) → Stays d (modify f)
  modify-Stays f same = record { at = λ e h. then_same d e (f e) h (same e) }

  item-Stays :
      (k : String)
      → ((v : Value) (e : Device) → IsSameDevice e (set_attribute k v e))
      → Stays d (assign_item k device)
  unfolding assign_item
  item-Stays k same =
      Spec-bind _ _ (lift (item k device)) _ (lift-Stays (item k device))
        (λ v. modify-Stays (set_attribute k v) (same v))

  date-Stays :
      (k : String)
      → ((v : Value) (e : Device) → IsSameDevice e (set_attribute k v e))
      → Stays d (assign_date parse k device)
  unfolding assign_date
  date-Stays k same = Spec-bind _ _ (lift (item k device)) _ (lift-Stays (item k device)) λ v.
      Spec-bind _ _ (lift (parse v)) _ (lift-Stays (parse v))
        (λ t. modify-Stays (set_attribute k (num t)) (same (num t)))

  profile-Stays : Stays d (assign_profile_columns parse device)
  unfolding assign_profile_columns set_attribute
  profile-Stays =
      Spec-bind (λ _. IsSameDevice d) _ _ _
        (modify-Stays (set_attribute "profile_uuid" (get_or "profile_uuid" null device))
          (λ e. record { id = refl; udid = refl; serial = refl }))
        (λ _.
          date-Stays "profile_assign_time"
            (λ v e. record { id = refl; udid = refl; serial = refl }))

  seq-Stays : (m n : Exec Device (Unit {0})) → Stays d m → Stays d n → Stays d (m >> n)
  seq-Stays m n h k = Spec-bind (λ _. IsSameDevice d) _ m _ h (λ _. k)

  update_device-Stays : Stays d (update_device parse device)
  unfolding update_device set_attribute
  update_device-Stays =
      seq-Stays _ _
        (item-Stays "description" (λ v e. record { id = refl; udid = refl; serial = refl }))
        (seq-Stays _ _
          (item-Stays "model" (λ v e. record { id = refl; udid = refl; serial = refl }))
          (seq-Stays _ _ (item-Stays "os" (λ v e. record { id = refl; udid = refl; serial = refl }))
            (seq-Stays _ _
              (item-Stays "device_family" (λ v e. record { id = refl; udid = refl; serial = refl }))
              (seq-Stays _ _
                (item-Stays "color" (λ v e. record { id = refl; udid = refl; serial = refl }))
                (seq-Stays _ _
                  (item-Stays "profile_status"
                    (λ v e. record { id = refl; udid = refl; serial = refl }))
                  (Spec-bind _ _ (lift (item "profile_status" device)) _ (lift-Stays _) λ status.
                    seq-Stays _ _
                      (Spec-if _ (is_assigned status) _ _ (λ _. profile-Stays)
                        (λ _. Spec-pure _ tt (λ s h. h)))
                      (seq-Stays _ _
                        (item-Stays "device_assigned_by"
                          (λ v e. record { id = refl; udid = refl; serial = refl }))
                        (seq-Stays _ _
                          (date-Stays "device_assigned_date"
                            (λ v e. record { id = refl; udid = refl; serial = refl }))
                          (modify-Stays (set_attribute "is_dep" (flag true))
                            (λ e. record { id = refl; udid = refl; serial = refl }))))))))))

  pub updated-IsSame : IsSameDevice d (update_device parse device d).1
  updated-IsSame =
      Ends-same (IsSameDevice d) (update_device parse device d).0 (update_device parse device d).1
        (update_device-Stays.at d (record { id = refl; udid = refl; serial = refl }))

-- What an unknown device's dictionary has under a key survives what is done to it.
abbrev pub Names : String → Option Value → Fields → Type 0
Names j o f = get j f ≡ o

pub get-without : (k j : String) (d : Fields) → str_eq k j ≡ false → get j (without k d) ≡ get j d
unfolding get without
get-without k j end h = refl
get-without k j (field i v d) h =
    ground (arith, eq_iff i k, eq_iff i j, eq_iff k j, get-without k j d h)

module _ (parse : DateParser) (j : String) (o : Option Value) where
  abbrev Naming : {A : Type 0} → Exec Fields A → Type 0
  Naming m = Spec (Names j o) m (λ _. Names j o) (Names j o)

  lift-Naming : {A : Type 0} (r : Result A) → Naming (lift r)
  lift-Naming r = Spec-lift _ r (λ a e s h. h) (λ s h. h)

  parse-Naming : (k : String) → str_eq k j ≡ false → Naming (parse_key parse k)
  unfolding parse_key
  parse-Naming k other =
      Spec-bind (λ _. Names j o) _ (gets (item k)) _ (record { at = λ s h. h })
        λ r.
          Spec-bind (λ _. Names j o) _ (lift r) _ (lift-Naming r)
            λ x.
              Spec-bind (λ _. Names j o) _ (lift (parse x)) (λ t. modify (put k (num t)))
                (lift-Naming (parse x))
                λ t. record {
                  at = λ f h.
                      get-put k j (num t) f
                      ∙ ap (λ b. if b then some (num t) else get j f) other
                      ∙ h;
                }

  delete-Naming : (k : String) → str_eq k j ≡ false → Naming (delete_key k)
  unfolding delete_key
  delete-Naming k other = record { at = λ f h. deleted f h (contains k f) }
    where
      deleted :
          (f : Fields)
          → Names j o f
          → (b : Bool)
          → Ends {S = Fields} {A = Unit {0}}
              (λ _. Names j o)
              (Names j o)
              (if b then (ok tt, without k f) else (err (key_error k), f))
      deleted f h true = get-without k j f other ∙ h
      deleted f h false = h

  seq-Naming : (m n : Exec Fields (Unit {0})) → Naming m → Naming n → Naming (m >> n)
  seq-Naming m n h k = Spec-bind (λ _. Names j o) _ m _ h (λ _. k)

  pub prepare_device-Naming :
      str_eq "profile_assign_time" j ≡ false
      → str_eq "device_assigned_date" j ≡ false
      → str_eq "op_type" j ≡ false
      → str_eq "op_date" j ≡ false
      → Naming (prepare_device parse)
  unfolding prepare_device
  prepare_device-Naming profile assigned op date =
      Spec-bind (λ _. Names j o) _ (gets (item "profile_status")) _ (record { at = λ s h. h })
        λ r.
          Spec-bind (λ _. Names j o) _ (lift r) _ (lift-Naming r)
            λ status.
              seq-Naming _ _
                (Spec-if _ (is_assigned status) _ _
                  (λ _. parse-Naming "profile_assign_time" profile)
                  (λ _. Spec-pure _ tt (λ s h. h)))
                (seq-Naming _ _ (parse-Naming "device_assigned_date" assigned) (
                  Spec-bind (λ _. Names j o) _ (gets (contains "op_type")) _
                    (record { at = λ s h. h })
                    λ synced.
                      Spec-if _ synced _ _
                        (λ _. seq-Naming _ _ (delete-Naming "op_type" op) (
                          seq-Naming _ _ (delete-Naming "op_date" date) (
                            seq-Naming _ _ (delete-Naming "profile_assign_time" profile)
                              (delete-Naming "device_assigned_date" assigned))))
                        (λ _. Spec-pure _ tt (λ s h. h))))
