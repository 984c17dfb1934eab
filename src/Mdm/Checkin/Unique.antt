-- ===== src/Mdm/Checkin/Unique.antt =====
-- The check-in messages keep the invariant of the tables: no UDID comes to stand on two devices.
use commandment.Base.{◌≡◌, refl, false, Option, none, some, List, [], ◌∷◌, keep, All}
use commandment.Python.Values.{Value, Fields, null, get}
use commandment.Python.Exec.{Result, ok, err, lift, no_result_found}
use commandment.Python.Spec.{Ends, Spec, Spec-pure, Spec-lift, Spec-bind, Spec-raise, Spec-if}
use commandment.Store.Rows.{Device, Db}
use commandment.Store.Session.{Session, begin, commit, one, device_key}
use commandment.Store.Keys.{keep-IsIn}
use commandment.Store.Tables.{IsSound, IsGood, HasDevice, append_device-IsSound}
use commandment.Apns.Push.{Apns}
use commandment.Pki.{X509}
use commandment.Mdm.Queue.{Services}
use commandment.Mdm.Endpoint.{Reply, body, item, is_device, with_device}
use commandment.Mdm.Keeps.{Keeps-commit, put_device-HasDevice}
use commandment.Mdm.Checkin.{
  Biplist, new_device, find_result, authenticate_found, authenticate, user_authenticate,
}
use commandment.Mdm.Checkin.Routes.{is_text, Route, view, checkin_routes, serve_checkin}
use commandment.Mdm.Checkin.Kept.{IsKept, token_update-IsKept, check_out-IsKept}

-- What the query of authenticate answers: a row of the table, or that there is none.
abbrev Answers : Value → Result Device → Session → Type 0
Answers udid (ok d) s = HasDevice d s
Answers udid (err no_result_found) s = IsGood s × (keep (is_device udid) s.working.devices ≡ [])
Answers udid (err e) s = IsGood s

answer_of :
    (udid : Value) (kept : List Device) (s : Session)
    → keep (is_device udid) s.working.devices ≡ kept
    → IsGood s
    → Answers udid (with_device (one kept) no_result_found) s
unfolding one
answer_of udid [] s k h = (h, k)
answer_of udid (d ∷ []) s k h = record {
  good = h;
  row = keep-IsIn device_key (is_device udid) d [] s.working.devices k;
}
answer_of udid (d ∷ e ∷ kept) s k h = h

find_result-Answers : (udid : Value) → Spec IsGood (find_result udid) (Answers udid) IsGood
unfolding find_result
find_result-Answers udid = record { at = λ s h. answer_of udid _ s refl h }

authenticate_found-IsKept :
    (services : Services) (udid : Value) (message : Fields) (found : Result Device)
    → Spec
        (Answers udid found)
        (authenticate_found services udid message found)
        (λ _. IsGood)
        IsGood
unfolding authenticate_found
authenticate_found-IsKept services udid message (ok d) = record {
  at = λ s h.
      ((put_device-HasDevice d (record d { is_enrolled = false; token = null }) refl refl).at s
        h).good;
}
authenticate_found-IsKept services udid message (err no_result_found) = record {
  at = λ s h. record {
    stored = h.0.stored;
    working =
        append_device-IsSound (new_device services s.working.next_device_id udid message) s.working
          refl (unfold is_device in h.1) h.0.working;
  };
}
authenticate_found-IsKept services udid message (err _) = record { at = λ s h. h }

authenticate-IsKept :
    (services : Services) (message : Fields) → IsKept (authenticate services message)
unfolding authenticate
authenticate-IsKept services message =
    Spec-bind (λ _. IsGood) (λ _. IsGood) (lift (item "UDID" message)) _
      (Spec-lift _ (item "UDID" message) (λ v e s h. h) (λ s h. h))
      λ udid.
        Spec-bind (Answers udid) (λ _. IsGood) (find_result udid) _ (find_result-Answers udid)
          λ found.
            Spec-bind (λ _. IsGood) (λ _. IsGood) (authenticate_found services udid message found) _
              (authenticate_found-IsKept services udid message found)
              λ _.
                Spec-bind (λ _. IsGood) (λ _. IsGood) commit _ Keeps-commit.good
                  (λ _. Spec-pure _ (body "OK") (λ s h. h))

view-IsKept :
    (routes : List Route) (message : Fields)
    → All (λ r. IsKept (r.handler message)) routes
    → IsKept (view routes message)
unfolding view
view-IsKept [] message h = Spec-raise _ _ (λ s k. k)
view-IsKept (r ∷ rs) message h =
    Spec-if _ (is_text r.value (get r.key message)) _ _ (λ _. h.0) (λ _. view-IsKept rs message h.1)

checkin-IsKept :
    (services : Services) (apns : Apns) (biplist : Biplist) (signers : Option (List X509))
    (message : Fields)
    → IsKept (view (checkin_routes services apns biplist signers) message)
unfolding checkin_routes user_authenticate
checkin-IsKept services apns biplist signers message =
    view-IsKept (checkin_routes services apns biplist signers) message (
      authenticate-IsKept services message,
      (
        token_update-IsKept services apns biplist signers message,
        (Spec-raise _ _ (λ s h. h), (check_out-IsKept services message, tt)),
      ),
    )

Ends-IsGood : (r : Result Reply) (s : Session) → Ends (λ _. IsGood) IsGood (r, s) → IsGood s
Ends-IsGood (ok a) s h = h
Ends-IsGood (err e) s h = h

-- Whatever a device sends to /checkin, and however the push ends, the stored tables keep distinct
-- keys below the next number, and no UDID comes to stand on two device rows.
pub serve_checkin-IsSound :
    (services : Services) (apns : Apns) (biplist : Biplist) (signers : Option (List X509))
    (parsed : Option Fields) (db : Db)
    → IsSound db
    → IsSound (serve_checkin services apns biplist signers parsed db).1
unfolding serve_checkin
serve_checkin-IsSound services apns biplist signers none db h = h
serve_checkin-IsSound services apns biplist signers (some message) db h =
    let (r, s) = view (checkin_routes services apns biplist signers) message (begin db) in
    (Ends-IsGood r s (
      (checkin-IsKept services apns biplist signers message).at (begin db)
        (unfold begin in record { stored = h; working = h }))).stored
