-- ===== src/Mdm/Endpoint/Sound.antt =====
-- What a message to the MDM endpoint leaves in the tables.
use commandment.Base.{◌≡◌, String, refl, ap, true, arith, Option, none, some, List, [], ◌∷◌}
use commandment.Python.Values.{Value, Fields, get, contains}
use commandment.Python.Exec.{
  Exn, ok_inj, or_raise-some, http, no_result_found, Result, ok, err, Exec, lift, gets,
}
use commandment.Python.Spec.{
  Ends, Spec, Spec-pure, Spec-raise, Spec-lift, Spec-bind, Spec-if, Ends-same, Ends-result,
}
use commandment.Store.Rows.{Device, CommandRow, Db}
use commandment.Store.Session.{Session, begin, commit, one, put_device, device_key}
use commandment.Store.Keys.{keep-passes}
use commandment.Store.Tables.{IsSound, IsGood, HasDevice}
use commandment.Mdm.Enums.{CommandStatus, is_idle}
use commandment.Mdm.Commands.{to_dict}
use commandment.Mdm.Commands.Registry.{new_request_type}
use commandment.Mdm.Queue.{Services, row_of_uuid, find_by_uuid, next_command}
use commandment.Mdm.Keeps.{
  Keeps-commit, Keeps-put_command, put_device-HasDevice, find_device-IsIn, with_device-ok,
}
use commandment.Mdm.Endpoint.{
  body, Handle, plistify, item, is_device, find_device, as_uuid, status_of, ignore_no_result,
  settle, acknowledge, deliver, offer, poll, answer, respond, route, mdm, serve,
}

-- A handler, given a device row that is in the table and a message that says P of its UDID, keeps
-- the invariant.
abbrev pub HandlesSoundly : (Value → Fields → Type 0) → Handle → Type 0
HandlesSoundly P handle =
    (row : CommandRow) (d : Device) (message : Fields)
    → P d.udid message
    → Spec (HasDevice d) (handle row d message) (λ _. IsGood) IsGood

-- The body says P of the UDID of each device that its own UDID finds.
abbrev pub Says : (Value → Fields → Type 0) → Option Fields → Type 0
Says P none = Unit
Says P (some message) =
    (udid : Value) (d : Device)
    → get "UDID" message ≡ some udid
    → is_device udid d ≡ true
    → P d.udid message

one-single : (devices : List Device) (d : Device) → one devices ≡ ok d → devices ≡ d ∷ []
unfolding one
one-single [] d h = ground arith
one-single (x ∷ []) d h = ap (λ y. y ∷ []) (ok_inj x d h)
one-single (x ∷ y ∷ xs) d h = ground arith

find_device-is_device :
    (udid : Value) (e : Exn) (s : Session) (d : Device)
    → (find_device udid e s).0 ≡ ok d
    → is_device udid d ≡ true
unfolding find_device
find_device-is_device udid e s d h =
    keep-passes device_key (is_device udid) d [] s.working.devices
      (one-single _ d (with_device-ok _ e d h))

settled :
    (r : Result (Unit {0})) (s : Session)
    → Ends (λ _. IsGood) IsGood (r, s)
    → Ends (λ _. IsGood) IsGood (settle r, s)
settled (ok a) s h = h
settled (err no_result_found) s h = h
settled (err _) s h = h

Spec-ignore_no_result :
    (P : Session → Type 0) (m : Exec Session (Unit {0}))
    → Spec P m (λ _. IsGood) IsGood
    → Spec P (ignore_no_result m) (λ _. IsGood) IsGood
Spec-ignore_no_result P m h = record { at = λ s p. let (r, s') = m s in settled r s' (h.at s p) }

row_of_uuid-HasDevice :
    (d : Device) (uuid : Option String)
    → Spec (HasDevice d) (row_of_uuid uuid) (λ _. HasDevice d) IsGood
row_of_uuid-HasDevice d none = record { at = λ s h. h.good }
row_of_uuid-HasDevice d (some uuid) = record {
  at = λ s h. Ends-result (λ _. HasDevice d) IsGood _ s (λ a e. h) h.good;
}

find_by_uuid-HasDevice :
    (services : Services) (uuid : String) (d : Device)
    → Spec (HasDevice d) (find_by_uuid services uuid) (λ _. HasDevice d) IsGood
unfolding find_by_uuid
find_by_uuid-HasDevice services uuid d = row_of_uuid-HasDevice d (services.canonical_uuid uuid)

module _ (services : Services) (handle : Handle) (P : Value → Fields → Type 0)
    (sound : HandlesSoundly P handle) where
  acknowledge-IsGood :
      (d : Device) (status : CommandStatus) (message : Fields)
      → P d.udid message
      → Spec (HasDevice d) (acknowledge services handle d status message) (λ _. IsGood) IsGood
  unfolding acknowledge
  acknowledge-IsGood d status message says =
      let answered : CommandRow → CommandRow =
        λ row. record row { status = status; acknowledged_at = some services.utcnow } in
      Spec-if _ (contains "CommandUUID" message) _ _
        (λ _. Spec-ignore_no_result (HasDevice d) _ (
          Spec-bind (λ _. HasDevice d) _ (lift (item "CommandUUID" message)) _
            (Spec-lift _ _ (λ a e s h. h) (λ s h. h.good))
            λ uuid.
              Spec-bind (λ _. HasDevice d) _ (lift (as_uuid uuid)) _
                (Spec-lift _ _ (λ a e s h. h) (λ s h. h.good))
                λ name.
                  Spec-bind (λ _. HasDevice d) _ (find_by_uuid services name) _
                    (find_by_uuid-HasDevice services name d)
                    λ row.
                      Spec-bind (λ _. HasDevice d) _ _ _
                        ((Keeps-put_command (answered row)).device d)
                        λ _.
                          Spec-bind (λ _. HasDevice d) _ commit _ (Keeps-commit.device d)
                            λ _. sound (answered row) d message says))
        (λ _. Spec-raise _ _ (λ s h. h.good))

  answer-IsGood :
      (d : Device) (status : CommandStatus) (message : Fields)
      → P d.udid message
      → Spec (HasDevice d) (answer services handle d status message) (λ _. IsGood) IsGood
  unfolding answer
  answer-IsGood d status message says =
      Spec-if _ (is_idle status) _ _ (λ _. Spec-pure _ tt (λ s h. h.good))
        (λ _. acknowledge-IsGood d status message says)

  deliver-IsGood : (row : CommandRow) → Spec IsGood (deliver services row) (λ _. IsGood) IsGood
  unfolding deliver
  deliver-IsGood row =
      Spec-bind (λ _. IsGood) _ (lift (new_request_type row.request_type row.parameters row.uuid)) _
        (Spec-lift _ _ (λ a e s h. h) (λ s h. h))
        λ cmd.
          Spec-bind (λ _. IsGood) _ (lift (to_dict services.codec cmd)) _
            (Spec-lift _ _ (λ a e s h. h) (λ s h. h))
            λ output.
              Spec-bind (λ _. IsGood) _ _ _ (Keeps-put_command _).good
                λ _.
                  Spec-bind (λ _. IsGood) _ commit _ Keeps-commit.good
                    λ _. Spec-lift _ (plistify output) (λ a e s h. h) (λ s h. h)

  offer-IsGood : (o : Option CommandRow) → Spec IsGood (offer services o) (λ _. IsGood) IsGood
  offer-IsGood none = Spec-pure _ (body "") (λ s h. h)
  offer-IsGood (some row) = deliver-IsGood row

  poll-IsGood : (d : Device) → Spec IsGood (poll services d) (λ _. IsGood) IsGood
  unfolding poll
  poll-IsGood d =
      Spec-bind (λ _. IsGood) _ (gets (λ s. next_command d.id s.working.commands)) _
        record { at = λ s h. h } offer-IsGood

  respond-IsGood :
      (d : Device) (message : Fields)
      → P d.udid message
      → Spec (HasDevice d) (respond services handle d message) (λ _. IsGood) IsGood
  unfolding respond
  respond-IsGood d message says =
      let d' : Device = record d { last_seen = some services.utcnow } in
      Spec-bind (λ _. HasDevice d) _ (lift (item "Status" message)) _
        (Spec-lift _ _ (λ a e s h. h) (λ s h. h.good))
        λ value.
          Spec-bind (λ _. HasDevice d) _ (lift (status_of value)) _
            (Spec-lift _ _ (λ a e s h. h) (λ s h. h.good))
            λ status.
              Spec-bind (λ _. HasDevice d') _ (put_device d') _
                (put_device-HasDevice d d' refl refl)
                λ _.
                  Spec-bind (λ _. HasDevice d') _ commit _ (Keeps-commit.device d')
                    λ _.
                      Spec-bind (λ _. IsGood) _ _ _ (answer-IsGood d' status message says)
                        λ _. poll-IsGood d'

  route-IsGood :
      (d : Device) (message : Fields)
      → P d.udid message
      → Spec (HasDevice d) (route services handle d message) (λ _. IsGood) IsGood
  unfolding route
  route-IsGood d message says =
      Spec-if _ (contains "UserID" message) _ _ (λ _. Spec-pure _ (body "") (λ s h. h.good))
        λ _.
          Spec-if _ (contains "Status" message) _ _ (λ _. respond-IsGood d message says)
            (λ _. Spec-raise _ _ (λ s h. h.good))

  mdm-IsGood :
      (message : Fields)
      → Says P (some message)
      → Spec IsGood (mdm services handle message) (λ _. IsGood) IsGood
  unfolding mdm
  mdm-IsGood message says =
      Spec-bind (λ udid s. IsGood s × (get "UDID" message ≡ some udid)) _
        (lift (item "UDID" message)) _
        (Spec-lift _ _ (λ a e s h. (h, or_raise-some _ _ a (unfold item in e))) (λ s h. h))
        λ udid.
          Spec-bind (λ d s. HasDevice d s × P d.udid message) _ (find_device udid (http 410)) _
            record {
              at = λ s h.
                  Ends-result (λ d s. HasDevice d s × P d.udid message) IsGood _ s
                    (λ d found. (
                      record { good = h.0; row = find_device-IsIn udid (http 410) s d found },
                      says udid d h.1 (find_device-is_device udid (http 410) s d found),
                    ))
                    h.0;
            }
            λ d. record { at = λ s h. (route-IsGood d message h.1).at s h.0 }

  pub serve-IsSound :
      (parsed : Option Fields) (db : Db)
      → Says P parsed
      → IsSound db
      → IsSound (serve services handle parsed db).1
  unfolding serve
  serve-IsSound none db says h = h
  serve-IsSound (some message) db says h =
      let (r, s) = mdm services handle message (begin db) in
      (Ends-same IsGood r s (
        (mdm-IsGood message says).at (begin db)
          (unfold begin in record { stored = h; working = h }))).stored
