-- ===== src/Dep/Sync/Serials.antt =====
-- The device table under dep_fetch_devices: the invariant of the tables, and no serial number on
-- two device rows.
use mathlib.Core.List.{append-nil}
use commandment.Base.{
  ◌≤◌, ◌≡◌, refl, sym, ap, subst, ◌∙◌, String, false, Option, none, some, List, [], ◌∷◌, ◌++◌, keep,
  keep-append, length, IsIn, Bool-cases, inl, inr, arith, ℕ, suc, ltb, any, ◌==◌, if◌then◌else◌,
}
use commandment.Python.Values.{Value, null, text, Fields, get, get_or, sql_eq, sql_eq_sound}
use commandment.Python.Exec.{
  key_error, integrity_error, no_result_found, or_raise, ok_inj, Result, ok, err, lift, raise, gets,
}
use commandment.Python.Spec.{Spec, Spec-raise, Spec-lift, Spec-bind, Spec-if}
use commandment.Store.Rows.{Device}
use commandment.Store.Session.{one, save, device_key}
use commandment.Store.Keys.{keep-IsIn, length-keep-save_same}
use commandment.Store.Tables.{has_udid, IsSound, save_device-IsSound, append_device-IsSound}
use commandment.Mdm.Endpoint.{item}
use commandment.Dep.Account.{DepTables, DepSession, DateParser, change_tables}
use commandment.Dep.Rows.{update_device, prepare_device, dep_device}
use commandment.Dep.Sync.{
  has_serial, add_row, insert_dep, add_device, change_device, store_found, store_device,
}
use commandment.Dep.Sync.Kept.{IsKept, device-IsKept}
use commandment.Dep.Sync.Devices.{IsSameDevice, updated-IsSame}
use commandment.Dep.Sync.Added.{Unkeyed, dep_device-marks, prepared-Names, prepared-Unkeyed}

has_no_udid : (devices : List Device) → keep (has_udid null) devices ≡ []
has_no_udid [] = refl
has_no_udid (d ∷ ds) = ground (arith, nothing d.udid, has_no_udid ds)
  where
    nothing : (v : Value) → sql_eq v null ≡ false
    nothing v = ground arith

-- The tables are sound and no serial number stands on two rows.
pub record IsDirectory (t : DepTables) : Type 0 where
  pub sound : IsSound t.db
  pub serials : (u : String) → length (keep (has_serial (text u)) t.db.devices) ≤ 1

pub record AreDirectories (s : DepSession) : Type 0 where
  pub stored : IsDirectory s.stored
  pub working : IsDirectory s.working

-- What the query for a serial number answers.
abbrev Finds : Value → Result Device → DepSession → Type 0
Finds v (ok d) s = AreDirectories s × IsIn d s.working.db.devices
Finds v (err no_result_found) s = AreDirectories s × (keep (has_serial v) s.working.db.devices ≡ [])
Finds v (err e) s = AreDirectories s

query-Finds :
    (v : Value) (s : DepSession) (kept : List Device)
    → keep (has_serial v) s.working.db.devices ≡ kept
    → AreDirectories s
    → Finds v (one kept) s
unfolding one
query-Finds v s [] k h = (h, k)
query-Finds v s (d ∷ []) k h = (h, keep-IsIn device_key (has_serial v) d [] s.working.db.devices k)
query-Finds v s (d ∷ e ∷ kept) k h = h

changed-IsDirectory :
    (t : DepTables) (d d' : Device)
    → IsDirectory t
    → IsIn d t.db.devices
    → IsSameDevice d d'
    → IsDirectory (record t { db = record t.db { devices = save device_key d' t.db.devices } })
unfolding has_serial
changed-IsDirectory t d d' h m same = record {
  sound = save_device-IsSound d d' t.db m same.id same.udid h.sound;
  serials = λ u.
      rw
        (length-keep-save_same device_key (has_serial (text u)) d d' t.db.devices same.id
          h.sound.device_keys m (ap (λ v. sql_eq v (text u)) same.serial))
        (h.serials u);
}

one_more :
    (u : String) (v : Value) (d : Device) (devices : List Device)
    → length (keep (has_serial (text u)) devices) ≤ 1
    → keep (has_serial v) devices ≡ []
    → d.serial_number ≡ v
    → length (keep (has_serial (text u)) (devices ++ d ∷ [])) ≤ 1
unfolding has_serial
one_more u v d devices h absent named =
    rw keep-append (elim (Bool-cases (sql_eq d.serial_number (text u))) [
      | inl same ↦ rw same (
          subst (λ w. length (keep (has_serial w) devices ++ d ∷ []) ≤ 1)
            (sym named ∙ sql_eq_sound d.serial_number (text u) same) (rw absent (omega arith)))
      | inr other ↦ rw (other, append-nil) h
    ])

module _ (t : DepTables) (v : Value) (d : Device) (h : IsDirectory t)
    (absent : keep (has_serial v) t.db.devices ≡ []) (key : d.id ≡ t.db.next_device_id)
    (udid : d.udid ≡ null) (named : d.serial_number ≡ v) where
  new_key :
      (if ltb d.id t.db.next_device_id then t.db.next_device_id else suc d.id)
      ≡ suc t.db.next_device_id
  new_key =
      ap (λ k. if ltb k t.db.next_device_id then t.db.next_device_id else suc k) key
      ∙ ap (λ b. if b then t.db.next_device_id else suc t.db.next_device_id)
          (not_below t.db.next_device_id)
    where
      not_below : (n : ℕ) → ltb n n ≡ false
      not_below n = ground arith

  added-IsDirectory : IsDirectory (add_row d t)
  unfolding has_serial
  added-IsDirectory = record {
    sound =
        subst (λ n. IsSound (record t.db { devices = t.db.devices ++ d ∷ []; next_device_id = n }))
          (sym new_key)
          (append_device-IsSound d t.db key
            (ap (λ w. keep (has_udid w) t.db.devices) udid ∙ has_no_udid t.db.devices) h.sound);
    serials = λ u. one_more u v d t.db.devices (h.serials u) absent named;
  }

-- The row that is to be inserted, where the query found none.
abbrev Fresh : Value → Device → DepSession → Type 0
Fresh v d s =
    (AreDirectories s × (keep (has_serial v) s.working.db.devices ≡ []))
    × (d.id ≡ s.working.db.next_device_id)
    × (d.udid ≡ null)
    × (d.serial_number ≡ v)

insert_dep-AreDirectories :
    (v : Value) (d : Device) → Spec (Fresh v d) (insert_dep d) (λ _. AreDirectories) AreDirectories
unfolding insert_dep
insert_dep-AreDirectories v d =
    Spec-bind (λ _. Fresh v d) _ (gets (λ s. any (λ e. e.id == d.id) s.working.db.devices)) _
      (record { at = λ s h. h })
      λ taken.
        Spec-if _ taken (raise integrity_error) (change_tables (add_row d))
          (λ _. Spec-raise _ integrity_error (λ s h. h.0.0))
          (λ _. record {
            at = λ s h. record {
              stored = h.0.0.stored;
              working = added-IsDirectory s.working v d h.0.0.working h.0.1 h.1 h.2 h.3;
            };
          })

found-AreDirectories :
    (parse : DateParser) (device : Fields) (v : Value) (r : Result Device)
    → get "serial_number" device ≡ some v
    → Unkeyed device
    → Spec (Finds v r) (store_found parse device r) (λ _. AreDirectories) AreDirectories
unfolding store_found add_device change_device get_or
found-AreDirectories parse device v (ok d) named unkeyed =
    let (r, d') = update_device parse device d in
    Spec-bind (λ _. Finds v (ok d)) _ (lift r) _ (Spec-lift _ r (λ a e s h. h) (λ s h. h.0))
      (λ _. record {
        at = λ s h. record {
          stored = h.0.stored;
          working =
              changed-IsDirectory s.working d d' h.0.working h.1 (updated-IsSame parse device d);
        };
      })
found-AreDirectories parse device v (err no_result_found) named unkeyed = record {
  at = λ s h.
      let (r, device') = prepare_device parse device in
      let made = dep_device s.working.db.next_device_id device' in
      (Spec-bind (λ _ s'. s' ≡ s) _ (lift r) _
          (Spec-lift _ r (λ a e s' k. k) (λ s' k. subst AreDirectories (sym k) h.0))
          (λ _.
            Spec-bind (Fresh v) _ (lift made) insert_dep
              (Spec-lift _ made
                (λ d e s' k.
                  subst (Fresh v d) (sym k) (h, (fresh s d e).0, (fresh s d e).1, (fresh s d e).2))
                (λ s' k. subst AreDirectories (sym k) h.0))
              (insert_dep-AreDirectories v))).at
        s refl;
}
  where
    fresh :
        (s : DepSession) (d : Device)
        → dep_device s.working.db.next_device_id (prepare_device parse device).1 ≡ ok d
        → (d.id ≡ s.working.db.next_device_id) × (d.udid ≡ null) × (d.serial_number ≡ v)
    fresh s d e =
        let found =
          dep_device-marks s.working.db.next_device_id (prepare_device parse device).1 d
            (prepared-Unkeyed parse device unkeyed) e in
        (
          ap (λ m. m.0) found,
          ap (λ m. m.1) found,
          ap (λ m. m.2) found
              ∙ ap (λ o. elim o [ none ↦ null | some w ↦ w ]) (prepared-Names parse device v named),
        )
found-AreDirectories parse device v (err e) named unkeyed = Spec-raise _ e (λ s h. h)

pub device-AreDirectories :
    (parse : DateParser) (device : Fields)
    → Unkeyed device
    → IsKept AreDirectories (store_device parse device)
device-AreDirectories parse device unkeyed =
    device-IsKept AreDirectories parse device Finds (λ v s h. query-Finds v s _ refl h)
      (λ v e r. found-AreDirectories parse device v r (item-named v e) unkeyed)
  where
    raised :
        (o : Option Value) (v : Value) → or_raise o (key_error "serial_number") ≡ ok v → o ≡ some v
    raised none v e = ground arith
    raised (some w) v e = ap some (ok_inj w v e)

    item-named :
        (v : Value) → item "serial_number" device ≡ ok v → get "serial_number" device ≡ some v
    item-named v e = raised (get "serial_number" device) v (unfold item in e)
