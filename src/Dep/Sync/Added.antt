-- ===== src/Dep/Sync/Added.antt =====
-- The row of an unknown device that names neither a key nor a UDID.
use commandment.Base.{
  ℕ, zero, suc, ◌≡◌, refl, sym, ap, ◌∙◌, String, Bool, true, false, List, [], ◌∷◌, All, any, arith,
  str_eq, if◌then◌else◌, Option, none, some, Bool-cases, inl, inr,
}
use commandment.Python.Values.{
  Value, null, num, Fields, end, field, put, get, get_or, contains, contains-iff-get,
}
use commandment.Python.Exec.{type_error, Result, ok, err, ok_inj}
use commandment.Python.Spec.{Spec, Ends-same}
use commandment.Store.Rows.{Device}
use commandment.Mdm.Handlers.Information.{set_attribute}
use commandment.Dep.Rows.{
  dep_columns, plain_columns, set_key, set_token, set_enrolled, set_time, server_times,
  set_dep_column, set_other, set_keyword, set_keywords, blank_device, with_dep, dep_device,
  prepare_device,
}
use commandment.Dep.Account.{DateParser}
use commandment.Dep.Sync.Devices.{Names, prepare_device-Naming}

-- What the tables' invariants read of a row.
abbrev pub marks : Device → ℕ × Value × Value
marks d = (d.id, d.udid, d.serial_number)

set_token-marks : (v : Value) (d e : Device) → set_token v d ≡ ok e → marks e ≡ marks d
set_token-marks null d e h = ap marks (sym (ok_inj _ e h))
set_token-marks v d e h = ground arith

set_enrolled-marks : (v : Value) (d e : Device) → set_enrolled v d ≡ ok e → marks e ≡ marks d
set_enrolled-marks null d e h = ap marks (sym (ok_inj _ e h))
set_enrolled-marks (num zero) d e h = ap marks (sym (ok_inj _ e h))
set_enrolled-marks (num (suc zero)) d e h = ap marks (sym (ok_inj _ e h))
set_enrolled-marks (Value.flag b) d e h = ap marks (sym (ok_inj _ e h))
set_enrolled-marks v d e h = ground arith

set_time-marks : (v : Value) (d e : Device) → set_time v d ≡ ok e → marks e ≡ marks d
set_time-marks null d e h = ap marks (sym (ok_inj _ e h))
set_time-marks v d e h = ground arith

set_dep_column-marks :
    (cs : List (String × (Value → Device → Device))) (k : String) (v : Value) (d e : Device)
    → All (λ c. (v : Value) (d : Device) → marks (c.1 v d) ≡ marks d) cs
    → set_dep_column cs k v d ≡ ok e
    → marks e ≡ marks d
unfolding set_dep_column
set_dep_column-marks [] k v d e h set = elim (Bool-cases (any (str_eq k) plain_columns)) [
  | inl plain ↦ ap marks (
      sym (
        ok_inj _ e (
          sym (
            ap (λ b. if b then ok (record d { other = put k v d.other }) else err type_error) plain)
          ∙ set)))
  | inr other ↦ refused (
      sym (ap (λ b. if b then ok (record d { other = put k v d.other }) else err type_error) other)
      ∙ set)
]
  where
    refused : err type_error ≡ ok e → marks e ≡ marks d
    refused raised = ground arith
set_dep_column-marks ((name, setter) ∷ rest) k v d e h set = elim (Bool-cases (str_eq k name)) [
  | inl same ↦
      ap marks (
        sym (
          ok_inj _ e
            (sym (ap (λ b. if b then ok (setter v d) else set_dep_column rest k v d) same) ∙ set)))
      ∙ h.0 v d
  | inr other ↦
      set_dep_column-marks rest k v d e h.1
        (sym (ap (λ b. if b then ok (setter v d) else set_dep_column rest k v d) other) ∙ set)
]

set_other-marks :
    (k : String) (v : Value) (d e : Device) → set_other k v d ≡ ok e → marks e ≡ marks d
unfolding set_other
set_other-marks k v d e =
    chosen (str_eq k "token") (str_eq k "is_enrolled") (any (str_eq k) server_times)
  where
    chosen :
        (b c t : Bool)
        → (if b
            then set_token v d
            else if c
            then set_enrolled v d
            else if t
            then set_time v d
            else set_dep_column dep_columns k v d)
          ≡ ok e
        → marks e ≡ marks d
    chosen true c t h = set_token-marks v d e h
    chosen false true t h = set_enrolled-marks v d e h
    chosen false false true h = set_time-marks v d e h
    chosen false false false h =
        set_dep_column-marks dep_columns k v d e
          (
            (λ v d. refl),
            (
              (λ v d. refl),
              (
                (λ v d. refl),
                (
                  (λ v d. refl),
                  (
                    (λ v d. refl),
                    (
                      (λ v d. refl),
                      (
                        (λ v d. refl),
                        (
                          (λ v d. refl),
                          ((λ v d. refl), ((λ v d. refl), ((λ v d. refl), ((λ v d. refl), tt)))),
                        ),
                      ),
                    ),
                  ),
                ),
              ),
            ),
          )
          h

set_keyword-marks :
    (k : String) (v : Value) (d e : Device)
    → str_eq k "id" ≡ false
    → str_eq k "udid" ≡ false
    → set_keyword k v d ≡ ok e
    → marks e ≡ (d.id, d.udid, if str_eq k "serial_number" then v else d.serial_number)
unfolding set_keyword
set_keyword-marks k v d e no_key no_udid h = chosen (str_eq k "serial_number") (
    sym (
      ap
        (λ b.
          if b
          then set_key v d
          else if str_eq k "udid"
          then ok (record d { udid = v })
          else if str_eq k "serial_number"
          then ok (record d { serial_number = v })
          else set_other k v d)
        no_key
      ∙ ap
          (λ b.
            if b
            then ok (record d { udid = v })
            else if str_eq k "serial_number"
            then ok (record d { serial_number = v })
            else set_other k v d)
          no_udid)
    ∙ h)
  where
    chosen :
        (b : Bool)
        → (if b then ok (record d { serial_number = v }) else set_other k v d) ≡ ok e
        → marks e ≡ (d.id, d.udid, if b then v else d.serial_number)
    chosen true h = ap marks (sym (ok_inj _ e h))
    chosen false h = set_other-marks k v d e h

-- The keywords name neither.
abbrev pub Unkeyed : Fields → Type 0
Unkeyed device = (contains "id" device ≡ false) × (contains "udid" device ≡ false)

Unkeyed-rest :
    (k : String) (v : Value) (device : Fields)
    → Unkeyed (field k v device)
    → (str_eq k "id" ≡ false) × (str_eq k "udid" ≡ false) × Unkeyed device
unfolding contains
Unkeyed-rest k v device h =
    (ground (arith, h.0), ground (arith, h.1), (ground (arith, h.0), ground (arith, h.1)))

set_keywords-marks :
    (device : Fields) (d e : Device)
    → Unkeyed device
    → set_keywords device d ≡ ok e
    → marks e ≡ (d.id, d.udid, get_or "serial_number" d.serial_number device)
unfolding set_keywords get_or get
set_keywords-marks end d e h set = ap marks (sym (ok_inj d e set))
set_keywords-marks (field k v device) d e h set =
    let (no_key, no_udid, rest) = Unkeyed-rest k v device h in
    behind (set_keywords device d) (λ e' r. set_keywords-marks device d e' rest r)
      (λ e' r. set_keyword-marks k v e' e no_key no_udid r) set
  where
    first :
        (b : Bool)
        → (if b
            then v
            else (elim (get "serial_number" device) [ none ↦ d.serial_number | some w ↦ w ]))
          ≡ (elim (if b then some v else get "serial_number" device) [
            | none ↦ d.serial_number
            | some w ↦ w
          ])
    first true = refl
    first false = refl

    behind :
        (r : Result Device)
        → ((e' : Device)
            → r ≡ ok e'
            → marks e' ≡ (d.id, d.udid, get_or "serial_number" d.serial_number device))
        → ((e' : Device)
            → set_keyword k v e' ≡ ok e
            → marks e ≡ (e'.id, e'.udid, if str_eq k "serial_number" then v else e'.serial_number))
        → (elim r [ ok d' ↦ set_keyword k v d' | err c ↦ err c ]) ≡ ok e
        → marks e ≡ (d.id, d.udid, get_or "serial_number" d.serial_number (field k v device))
    behind (err c) f g s = ground arith
    behind (ok e') f g s =
        g e' s
        ∙ ap (λ (m : ℕ × Value × Value). (m.0, m.1, if str_eq k "serial_number" then v else m.2))
            (f e' refl)
        ∙ ap (λ (x : Value). (d.id, d.udid, x)) (first (str_eq k "serial_number"))

pub dep_device-marks :
    (id : ℕ) (device : Fields) (e : Device)
    → Unkeyed device
    → dep_device id device ≡ ok e
    → marks e ≡ (id, null, get_or "serial_number" null device)
unfolding dep_device set_attribute
dep_device-marks id device e h made =
    behind (set_keywords device (blank_device id))
      (λ e' r. set_keywords-marks device (blank_device id) e' h r) made
  where
    behind :
        (r : Result Device)
        → ((e' : Device) → r ≡ ok e' → marks e' ≡ (id, null, get_or "serial_number" null device))
        → with_dep r ≡ ok e
        → marks e ≡ (id, null, get_or "serial_number" null device)
    behind (err c) f m = ground arith
    behind (ok e') f m = ap marks (sym (ok_inj _ e m)) ∙ f e' refl

absent-get : (k : String) (device : Fields) → contains k device ≡ false → get k device ≡ none
absent-get k device h = none_there (get k device) (sym (contains-iff-get k device) ∙ h)
  where
    none_there : (o : Option Value) → (elim o [ none ↦ false | some _ ↦ true ]) ≡ false → o ≡ none
    none_there none e = refl
    none_there (some v) e = ground arith

get-absent : (k : String) (device : Fields) → get k device ≡ none → contains k device ≡ false
get-absent k device h =
    contains-iff-get k device ∙ ap (λ o. elim o [ none ↦ false | some _ ↦ true ]) h

kept_get :
    (parse : DateParser) (device : Fields) (j : String) (o : Option Value)
    → Spec (Names j o) (prepare_device parse) (λ _. Names j o) (Names j o)
    → get j device ≡ o
    → get j (prepare_device parse device).1 ≡ o
kept_get parse device j o naming h =
    Ends-same (Names j o) (prepare_device parse device).0 (prepare_device parse device).1
      (naming.at device h)

pub prepared-Names :
    (parse : DateParser) (device : Fields) (v : Value)
    → get "serial_number" device ≡ some v
    → get "serial_number" (prepare_device parse device).1 ≡ some v
prepared-Names parse device v =
    kept_get parse device "serial_number" (some v)
      (prepare_device-Naming parse "serial_number" (some v) refl refl refl refl)

pub prepared-Unkeyed :
    (parse : DateParser) (device : Fields)
    → Unkeyed device
    → Unkeyed (prepare_device parse device).1
prepared-Unkeyed parse device h =
    let after = (prepare_device parse device).1 in
    (
      get-absent "id" after (
          kept_get parse device "id" none
            (prepare_device-Naming parse "id" none refl refl refl refl)
            (absent-get "id" device h.0)),
      get-absent "udid" after (
          kept_get parse device "udid" none
            (prepare_device-Naming parse "udid" none refl refl refl refl)
            (absent-get "udid" device h.1)),
    )
