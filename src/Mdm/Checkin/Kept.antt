-- ===== src/Mdm/Checkin/Kept.antt =====
-- A TokenUpdate and a CheckOut keep the invariant of the tables: they change a row, but neither its
-- key nor its UDID.
use commandment.Base.{◌≡◌, refl, Bool, true, false, if◌then◌else◌, List, Option, none, some, arith}
use commandment.Python.Values.{Value, Fields, contains, truthy}
use commandment.Python.Exec.{
  Result, ok, err, Exec, lift, pure, ◌>>=◌, ◌>>◌, multiple_results_found, http, ssl_error,
}
use commandment.Python.Spec.{Ends, Spec, Spec-pure, Spec-lift, Spec-bind, Spec-if, Ends-result}
use commandment.Store.Rows.{Device, DeviceIdentityCertificate}
use commandment.Store.Session.{Session, commit, change, put_device}
use commandment.Store.Tables.{IsGood, HasDevice}
use commandment.Apns.Push.{
  push_answer, PushResponse, Apns, after_push, push_to_device, pushed, after_push-key,
}
use commandment.Pki.{X509}
use commandment.Mdm.Queue.{Services}
use commandment.Mdm.Endpoint.{body, item, find_device}
use commandment.Mdm.Keeps.{
  Keeps, Keeps-elsewhere, Keeps-commit, Keeps-queue_full_inventory, put_device-HasDevice,
  find_device-IsIn, find_device-HasDevice,
}
use commandment.Mdm.Checkin.{
  Biplist, find_single, enrolled, add_identity, identity_in, enroll, first_contact, push_failure,
  push_or_abort, push_after_update, updated, update_tokens, channel_update, token_update,
  checked_out, several, check_out,
}

abbrev pub IsKept : {A : Type 0} → Exec Session A → Type 0
IsKept m = Spec IsGood m (λ _. IsGood) IsGood

-- The last statements of a handler, once the device row is set.
commit_reply : (d : Device) → Spec (HasDevice d) (do commit; pure (body "OK")) (λ _. IsGood) IsGood
commit_reply d =
    Spec-bind (λ _. HasDevice d) (λ _. IsGood) commit _ (Keeps-commit.device d)
      (λ _. Spec-pure _ _ (λ s h. h.good))

put_and_reply :
    (d d' : Device)
    → d'.id ≡ d.id
    → d'.udid ≡ d.udid
    → Spec (HasDevice d) (do put_device d'; commit; pure (body "OK")) (λ _. IsGood) IsGood
put_and_reply d d' key udid =
    Spec-bind (λ _. HasDevice d') (λ _. IsGood) (put_device d') _
      (put_device-HasDevice d d' key udid) (λ _. commit_reply d')

pub enrolled-id : (c : Option DeviceIdentityCertificate) (d : Device) → (enrolled c d).id ≡ d.id
enrolled-id none d = refl
enrolled-id (some c) d = refl

enrolled-udid : (c : Option DeviceIdentityCertificate) (d : Device) → (enrolled c d).udid ≡ d.udid
enrolled-udid none d = refl
enrolled-udid (some c) d = refl

Keeps-add_identity : (c : Option DeviceIdentityCertificate) → Keeps (change (add_identity c))
unfolding add_identity
Keeps-add_identity none = Keeps-elsewhere _ refl
Keeps-add_identity (some c) = Keeps-elsewhere _ refl

enroll-HasDevice :
    (services : Services) (d : Device) (c : Option DeviceIdentityCertificate)
    → Spec (HasDevice d) (enroll services d c) HasDevice IsGood
unfolding enroll
enroll-HasDevice services d c =
    Spec-bind (λ _. HasDevice (enrolled c d)) HasDevice (put_device (enrolled c d)) _
      (put_device-HasDevice d (enrolled c d) (enrolled-id c d) (enrolled-udid c d))
      λ _.
        Spec-bind (λ _. HasDevice (enrolled c d)) HasDevice (change (add_identity c)) _
          ((Keeps-add_identity c).device (enrolled c d))
          λ _.
            Spec-bind (λ _. HasDevice (enrolled c d)) HasDevice _ _
              ((Keeps-queue_full_inventory services (enrolled c d)).device (enrolled c d))
              (λ _. Spec-pure HasDevice (enrolled c d) (λ s h. h))

first_contact-HasDevice :
    (services : Services) (signers : Option (List X509)) (d : Device)
    → Spec (HasDevice d) (first_contact services signers d) HasDevice IsGood
unfolding first_contact
first_contact-HasDevice services signers d = record { at = λ s h. contacted s h (truthy d.token) }
  where
    contacted :
        (s : Session)
        → HasDevice d s
        → (b : Bool)
        → Ends {S = Session} {A = Device} HasDevice IsGood
            (if b then (ok d, s) else (lift (identity_in signers s) >>= enroll services d) s)
    contacted s h true = h
    contacted s h false =
        (Spec-bind (λ _. HasDevice d) HasDevice (lift (identity_in signers s)) (enroll services d)
            (Spec-lift _ (identity_in signers s) (λ a e s h. h) (λ s h. h.good))
            (enroll-HasDevice services d)).at
          s h

updated-key :
    (services : Services) (biplist : Biplist) (message : Fields) (d d' : Device)
    → updated services biplist message d ≡ ok d'
    → (d'.id ≡ d.id) × (d'.udid ≡ d.udid)
unfolding updated
updated-key services biplist message d d' h = ground arith

push_to_device-HasDevice :
    (apns : Apns) (d : Device)
    → Spec (HasDevice d) (push_to_device apns d) (λ (r, d'). HasDevice d') IsGood
unfolding push_to_device
push_to_device-HasDevice apns d =
    Spec-bind (λ _. HasDevice d) _ (lift (push_answer apns d.push_magic d.token d.topic)) _
      (Spec-lift _ (push_answer apns d.push_magic d.token d.topic) (λ r e s h. h) (λ s h. h.good))
      λ r.
        let key = after_push-key r d in
        Spec-bind (λ _. HasDevice (after_push r d)) _ (put_device (after_push r d)) _
          (put_device-HasDevice d (after_push r d) key.0 key.1)
          (λ _. Spec-pure _ (r, after_push r d) (λ s h. h))

push_failure-Ends :
    (r : Result (PushResponse × Device)) (s : Session)
    → Ends (λ (r, d'). HasDevice d') IsGood (r, s)
    → Ends (λ (r, d'). HasDevice d') IsGood (push_failure r, s)
push_failure-Ends (err ssl_error) s h = h
push_failure-Ends (err _) s h = h
push_failure-Ends (ok a) s h = h

push_or_abort-HasDevice :
    (apns : Apns) (d : Device)
    → Spec (HasDevice d) (push_or_abort apns d) (λ (r, d'). HasDevice d') IsGood
unfolding push_or_abort
push_or_abort-HasDevice apns d = record {
  at = λ s h.
      let (r, s') = push_to_device apns d s in
      push_failure-Ends r s' ((push_to_device-HasDevice apns d).at s h);
}

push_after_update-IsKept :
    (services : Services) (apns : Apns) (d : Device)
    → Spec (HasDevice d) (push_after_update services apns d) (λ _. IsGood) IsGood
unfolding push_after_update
push_after_update-IsKept services apns d =
    Spec-bind (λ (r, d'). HasDevice d') (λ _. IsGood) (push_or_abort apns d) _
      (push_or_abort-HasDevice apns d)
      (λ (r, d'). put_and_reply d' (pushed services.utcnow r d') refl refl)

put_updated :
    (services : Services) (biplist : Biplist) (message : Fields) (d d' : Device)
    → Spec
        (λ s. HasDevice d s × (updated services biplist message d ≡ ok d'))
        (put_device d')
        (λ _. HasDevice d')
        IsGood
put_updated services biplist message d d' = record {
  at = λ s h.
      let key = updated-key services biplist message d d' h.1 in
      (put_device-HasDevice d d' key.0 key.1).at s h.0;
}

update_tokens-IsKept :
    (services : Services) (apns : Apns) (biplist : Biplist) (signers : Option (List X509))
    (message : Fields) (d : Device)
    → Spec
        (HasDevice d)
        (update_tokens services apns biplist signers message d)
        (λ _. IsGood)
        IsGood
unfolding update_tokens
update_tokens-IsKept services apns biplist signers message d =
    Spec-bind HasDevice (λ _. IsGood) (first_contact services signers d) _
      (first_contact-HasDevice services signers d)
      λ d'.
        Spec-bind (λ d'' s. HasDevice d' s × (updated services biplist message d' ≡ ok d''))
          (λ _. IsGood) (lift (updated services biplist message d')) _
          (Spec-lift _ (updated services biplist message d') (λ d'' e s h. (h, e)) (λ s h. h.good))
          λ d''.
            Spec-bind (λ _. HasDevice d'') (λ _. IsGood) (put_device d'') _
              (put_updated services biplist message d' d'')
              λ _.
                Spec-bind (λ _. HasDevice d'') (λ _. IsGood) commit _ (Keeps-commit.device d'')
                  (λ _. push_after_update-IsKept services apns d'')

channel_update-IsKept :
    (services : Services) (apns : Apns) (biplist : Biplist) (signers : Option (List X509))
    (message : Fields) (d : Device)
    → Spec
        (HasDevice d)
        (channel_update services apns biplist signers message d)
        (λ _. IsGood)
        IsGood
unfolding channel_update
channel_update-IsKept services apns biplist signers message d =
    Spec-if (λ _. IsGood) (contains "UserID" message) _ _
      (λ _. Spec-pure (λ _. IsGood) _ (λ s h. h.good))
      (λ _. update_tokens-IsKept services apns biplist signers message d)

pub token_update-IsKept :
    (services : Services) (apns : Apns) (biplist : Biplist) (signers : Option (List X509))
    (message : Fields)
    → IsKept (token_update services apns biplist signers message)
unfolding token_update
token_update-IsKept services apns biplist signers message =
    Spec-bind (λ _. IsGood) (λ _. IsGood) (lift (item "UDID" message)) _
      (Spec-lift _ (item "UDID" message) (λ v e s h. h) (λ s h. h))
      λ udid.
        Spec-bind HasDevice (λ _. IsGood) (find_device udid (http 410)) _
          (find_device-HasDevice udid (http 410))
          (channel_update-IsKept services apns biplist signers message)

several-ok : (r : Result Device) (d : Device) → several r ≡ ok d → r ≡ ok d
several-ok (ok x) d h = h
several-ok (err multiple_results_found) d h = cc
several-ok (err _) d h = cc

find_single-HasDevice : (udid : Value) → Spec IsGood (find_single udid) HasDevice IsGood
find_single-HasDevice udid = record {
  at = λ s h.
      unfold find_single in
      Ends-result HasDevice IsGood _ s
        (λ d found. record {
          good = h;
          row = find_device-IsIn udid (http 404) s d (several-ok _ d found);
        })
        h;
}

pub check_out-IsKept :
    (services : Services) (message : Fields) → IsKept (check_out services message)
unfolding check_out
check_out-IsKept services message =
    Spec-bind (λ _. IsGood) (λ _. IsGood) (lift (item "UDID" message)) _
      (Spec-lift _ (item "UDID" message) (λ v e s h. h) (λ s h. h))
      λ udid.
        Spec-bind HasDevice (λ _. IsGood) (find_single udid) _ (find_single-HasDevice udid)
          (λ d. put_and_reply d (checked_out services d) refl refl)
