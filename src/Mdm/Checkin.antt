-- ===== src/Mdm/Checkin.antt =====
-- The check-in messages of commandment/mdm/app.py.
pub mod Routes
pub mod Kept
pub mod Unique
pub mod Enrollment
pub mod Renewal
use commandment.Base.{
  ℕ, suc, String, Bool, true, false, not, Option, none, some, List, [], ◌∷◌, ◌++◌, ◌==◌, str_eq,
  if◌then◌else◌,
}
use commandment.Python.Values.{
  Value, null, text, num, flag, blob, arr, dict, Fields, end, get, contains, get_or, truthy,
}
use commandment.Python.Exec.{
  Exn, http, index_error, type_error, ssl_error, no_result_found, multiple_results_found, Result,
  ok, err, Exec, pure, raise, lift, ◌>>=◌, ◌>>◌,
}
use commandment.Store.Rows.{Device, DeviceIdentityCertificate, Db}
use commandment.Pki.{X509, from_crypto, fresh}
use commandment.Store.Session.{Session, begin, commit, one, change, put_device}
use commandment.Apns.Push.{PushResponse, Apns, pushed, push_to_device}
use commandment.Mdm.Queue.{Services, queue_full_inventory}
use commandment.Mdm.Endpoint.{Reply, body, item, find_device}

-- biplist's Data: whether a value is one, and what Data.encode('base64') gives.
pub record Biplist : Type 0 where
  pub is_data : Value → Bool
  pub data_encode : Result Value

unfoldable pub new_device : Services → ℕ → Value → Fields → Device
new_device services id udid message = record {
  id = id;
  udid = udid;
  last_seen = some services.now;
  is_enrolled = false;
  topic = get_or "Topic" null message;
  push_magic = null;
  token = null;
  unlock_token = null;
  tokenupdate_at = none;
  last_push_at = none;
  last_apns_id = null;
  build_version = get_or "BuildVersion" null message;
  device_name = get_or "DeviceName" null message;
  model = get_or "Model" null message;
  model_name = get_or "ModelName" null message;
  os_version = get_or "OSVersion" null message;
  product_name = get_or "ProductName" null message;
  serial_number = get_or "SerialNumber" null message;
  imei = get_or "IMEI" null message;
  meid = get_or "MEID" null message;
  certificate = none;
  other = end;
  tags = [];
}

-- db.session.add(device)
unfoldable pub insert_device : Device → Db → Db
insert_device d db = record db {
  devices = db.devices ++ d ∷ [];
  next_device_id = suc db.next_device_id;
}

-- The query, with NoResultFound for the caller to see.
unfoldable pub find_result : Value → Exec Session (Result Device)
unfolding find_device
find_result udid s = (ok (find_device udid no_result_found s).0, s)

-- What follows the query of authenticate: a new row for an unknown device, and the reset.
unfoldable pub authenticate_found :
    Services → Value → Fields → Result Device → Exec Session (Unit {0})
unfolding new_device insert_device put_device
authenticate_found services udid message (ok d) s =
    put_device (record d { is_enrolled = false; token = null }) s
authenticate_found services udid message (err no_result_found) s = (
  ok tt,
  record s {
    working = insert_device (new_device services s.working.next_device_id udid message) s.working;
  },
)
authenticate_found services udid message (err e) s = (err e, s)

unfoldable pub authenticate : Services → Fields → Exec Session Reply
unfolding item find_result authenticate_found commit
authenticate services message = do
  udid ← lift (item "UDID" message)
  found ← find_result udid
  authenticate_found services udid message found
  commit
  pure (body "OK")

-- The token setter of Device: base64 of bytes, None for None.
abbrev checked_token : Value → Result Value
checked_token null = ok null
checked_token (blob bytes) = ok (blob bytes)
checked_token _ = err type_error

-- The unlock_token setter of Device.
abbrev checked_unlock_token : Biplist → Value → Result Value
checked_unlock_token biplist v = if biplist.is_data v then biplist.data_encode else ok v

-- The certificate rows of `g.signers[0]`, with the unique fingerprint that the database asks for;
-- none where the decorator has set no signers.
unfoldable pub identity :
    Option (List X509) → List DeviceIdentityCertificate → Result (Option DeviceIdentityCertificate)
unfolding from_crypto fresh
identity none rows = ok none
identity (some []) rows = err index_error
identity (some (signer ∷ _)) rows = elim (from_crypto signer) [
  | ok row ↦ fresh row rows
  | err e ↦ err e
]

abbrev pub enrolled : Option DeviceIdentityCertificate → Device → Device
enrolled none d = record d { is_enrolled = true }
enrolled (some c) d = record d { is_enrolled = true; certificate = some c }

-- db.session.add(device_certificate)
unfoldable pub add_identity : Option DeviceIdentityCertificate → Db → Db
add_identity none db = db
add_identity (some c) db = record db { certificates = db.certificates ++ c ∷ [] }

-- What follows once the certificate is there. Its row is flushed by the commit of the inventory;
-- a fingerprint that is taken raises there, before anything is stored, as it does here.
unfoldable pub enroll : Services → Device → Option DeviceIdentityCertificate → Exec Session Device
unfolding put_device add_identity queue_full_inventory
enroll services d certificate = do
  put_device (enrolled certificate d)
  change (add_identity certificate)
  queue_full_inventory services (enrolled certificate d)
  pure (enrolled certificate d)

abbrev pub identity_in : Option (List X509) → Session → Result (Option DeviceIdentityCertificate)
identity_in signers s = identity signers s.working.certificates

-- `if not device.token`: the first contact after an enrollment.
unfoldable pub first_contact : Services → Option (List X509) → Device → Exec Session Device
unfolding enroll identity
first_contact services signers d s =
    if truthy d.token then (ok d, s) else (lift (identity_in signers s) >>= enroll services d) s

-- ssl.SSLError becomes the JSON reply of `abort`, which has status 200.
abbrev push_failure : Result (PushResponse × Device) → Result (PushResponse × Device)
push_failure (err ssl_error) = err (http 200)
push_failure r = r

-- `try: push_to_device(device) except ssl.SSLError`
unfoldable pub push_or_abort : Apns → Device → Exec Session (PushResponse × Device)
unfolding push_to_device
push_or_abort apns d s = let (r, s') = push_to_device apns d s in (push_failure r, s')

unfoldable pub push_after_update : Services → Apns → Device → Exec Session Reply
unfolding push_or_abort put_device commit
push_after_update services apns d = do
  (response, d') ← push_or_abort apns d
  put_device (pushed services.utcnow response d')
  commit
  pure (body "OK")

abbrev token_of : Result Value → Result Value
token_of (err e) = err e
token_of (ok v) = checked_token v

-- The assignments in their order: the first that raises ends them.
abbrev with_parts :
    Services → Device → Result Value → Result Value → Result Value → Result Value → Result Device
with_parts services d (ok m) (ok t) (ok k) (ok u) = ok (record d {
  tokenupdate_at = some services.utcnow;
  push_magic = m;
  topic = t;
  token = k;
  unlock_token = u;
  last_seen = some services.now;
})
with_parts services d (ok m) (ok t) (ok k) (err e) = err e
with_parts services d (ok m) (ok t) (err e) u = err e
with_parts services d (ok m) (err e) k u = err e
with_parts services d (err e) t k u = err e

-- The columns that a TokenUpdate sets.
unfoldable pub updated : Services → Biplist → Fields → Device → Result Device
unfolding item
updated services biplist message d =
    with_parts services d (item "PushMagic" message) (item "Topic" message)
      (token_of (item "Token" message))
      (checked_unlock_token biplist (get_or "UnlockToken" null message))

unfoldable pub update_tokens :
    Services → Apns → Biplist → Option (List X509) → Fields → Device → Exec Session Reply
unfolding first_contact updated put_device commit push_after_update
update_tokens services apns biplist signers message d = do
  d' ← first_contact services signers d
  d'' ← lift (updated services biplist message d')
  put_device d''
  commit
  push_after_update services apns d''

-- A message of the user channel changes nothing.
unfoldable pub channel_update :
    Services → Apns → Biplist → Option (List X509) → Fields → Device → Exec Session Reply
channel_update services apns biplist signers message d =
    if contains "UserID" message
    then pure (body "OK")
    else update_tokens services apns biplist signers message d

-- The message with its signature checked; `signers` is g.signers where the check has set it.
unfoldable pub token_update :
    Services → Apns → Biplist → Option (List X509) → Fields → Exec Session Reply
unfolding item find_device channel_update
token_update services apns biplist signers message = do
  udid ← lift (item "UDID" message)
  d ← find_device udid (http 410)
  channel_update services apns biplist signers message d

unfoldable pub user_authenticate : Fields → Exec Session Reply
user_authenticate message = raise (http 410)

abbrev pub several : Result Device → Result Device
several (err multiple_results_found) = err (http 500)
several r = r

abbrev pub checked_out : Services → Device → Device
checked_out services d = record d {
  last_seen = some services.utcnow;
  is_enrolled = false;
  token = null;
  push_magic = null;
}

-- check_out answers 404 for no device and 500 for several.
unfoldable pub find_single : Value → Exec Session Device
unfolding find_device
find_single udid s = (several (find_device udid (http 404) s).0, s)

unfoldable pub check_out : Services → Fields → Exec Session Reply
unfolding item find_single put_device commit
check_out services message = do
  udid ← lift (item "UDID" message)
  d ← find_single udid
  put_device (checked_out services d)
  commit
  pure (body "OK")
