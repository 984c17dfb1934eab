-- ===== src/Mdm/Handlers/Inventory.antt =====
-- The handlers of commandment/mdm/handlers.py that replace a part of a device's inventory. The
-- fingerprint of a certificate and what the marshmallow schemas load are arguments.
pub mod Replaced
use commandment.Base.{
  ℕ, suc, String, Bool, true, false, not, Option, none, some, List, [], ◌∷◌, ◌++◌, map, keep, any,
  ◌==◌, str_eq, if◌then◌else◌,
}
use commandment.Python.Values.{
  Value, text, blob, null, arr, dict, Items, nil, cons, Fields, end, field, get, get_or, contains,
}
use commandment.Python.Exec.{
  type_error, key_error, attribute_error, no_result_found, Result, ok, err, Exec, pure, raise, lift,
  gets, or_raise, ◌>>=◌, ◌>>◌,
}
use commandment.Store.Rows.{
  Device, Tag, Application, InstalledCertificate, InstalledApplication, AvailableOsUpdate,
  ManagedApplication, Db, queued,
}
use commandment.Store.Session.{Session, commit, one, change, save}
use commandment.Mdm.Commands.{install_application_of}
use commandment.Mdm.Queue.{Services, draw_uuid, enqueue}
use commandment.Mdm.Endpoint.{item}
use commandment.Mdm.Handlers.{belongs_to}
use commandment.Mdm.Handlers.Applications.{is_error, app_status_of, app_key, matching}

-- hexlify(x509.load_der_x509_certificate(data).fingerprint(SHA256))
abbrev pub Fingerprint : Type 0
Fingerprint = Value → Result Value

-- The entries of a loaded InstalledApplicationList, none where one is not a model.
abbrev pub LoadApplications : Type 0
LoadApplications = Fields → Result (List (Option InstalledApplication))

abbrev pub LoadUpdates : Type 0
LoadUpdates = Fields → Result (List AvailableOsUpdate)

unfoldable pub forget_certificates : Device → Db → Db
forget_certificates d db = record db {
  installed_certificates = keep (λ c. not (belongs_to d.id c.device_id)) db.installed_certificates;
}

unfoldable pub certificate_of : Fingerprint → Device → Fields → Result InstalledCertificate
unfolding item get_or
certificate_of fingerprint d cert = elim (item "Data" cert) [
  | ok der ↦ elim (fingerprint der) [
    | ok digest ↦ ok (record {
      device_id = some d.id;
      device_udid = d.udid;
      x509_cn = get_or "CommonName" null cert;
      is_identity = get_or "IsIdentity" null cert;
      der_data = der;
      fingerprint_sha256 = digest;
    })
    | err e ↦ err e
  ]
  | err e ↦ err e
]

unfoldable pub add_certificate : InstalledCertificate → Db → Db
add_certificate c db = record db { installed_certificates = db.installed_certificates ++ c ∷ [] }

unfoldable pub add_certificates : Fingerprint → Device → Items → Exec Session (Unit {0})
unfolding certificate_of add_certificate
add_certificates fingerprint d nil = pure tt
add_certificates fingerprint d (cons (dict cert) certs) = do
  c ← lift (certificate_of fingerprint d cert)
  change (add_certificate c)
  add_certificates fingerprint d certs
add_certificates fingerprint d (cons v certs) = raise attribute_error

-- len(v), which has to be there
abbrev pub sized : Value → Result (Unit {0})
sized (arr items) = ok tt
sized (dict fields) = ok tt
sized (text s) = ok tt
sized (blob bytes) = ok tt
sized v = err type_error

-- `for cert in v`, where a key, a character or a byte has no `get`
abbrev pub items_of : Value → Result Items
items_of (arr items) = ok items
items_of (dict end) = ok nil
items_of (text s) = if str_eq s "" then ok nil else err attribute_error
items_of (blob []) = ok nil
items_of v = elim (sized v) [ ok u ↦ err attribute_error | err e ↦ err e ]

-- ack_certificate_list
unfoldable pub ack_certificate_list : Fingerprint → Device → Fields → Exec Session (Unit {0})
unfolding forget_certificates item add_certificates commit
ack_certificate_list fingerprint d response = do
  change (forget_certificates d)
  value ← lift (item "CertificateList" response)
  certificates ← lift (items_of value)
  add_certificates fingerprint d certificates
  commit

unfoldable pub forget_applications : Device → Db → Db
forget_applications d db = record db {
  installed_applications = keep (λ a. not (belongs_to d.id a.device_id)) db.installed_applications;
}

-- `ia.bundle_identifier in ignored_app_bundle_ids`
abbrev pub is_ignored : List String → Value → Bool
is_ignored ignored (text s) = any (str_eq s) ignored
is_ignored ignored v = false

abbrev pub claim_application : Device → InstalledApplication → InstalledApplication
claim_application d a = record a { device_id = some d.id; device_udid = d.udid }

unfoldable pub add_applications :
    List String → Device → List (Option InstalledApplication) → Db → Db
add_applications ignored d [] db = db
add_applications ignored d (none ∷ apps) db = add_applications ignored d apps db
add_applications ignored d (some a ∷ apps) db = add_applications ignored d apps (
    if is_ignored ignored a.bundle_identifier then db else record db {
      installed_applications = db.installed_applications ++ claim_application d a ∷ [];
    })

-- ack_installed_app_list, with IGNORED_APPLICATION_BUNDLE_IDS of the configuration
unfoldable pub ack_installed_app_list :
    LoadApplications → List String → Device → Fields → Exec Session (Unit {0})
unfolding forget_applications item add_applications commit
ack_installed_app_list load ignored d response = do
  change (forget_applications d)
  value ← lift (item "InstalledApplicationList" response)
  lift (sized value)
  apps ← lift (load response)
  change (add_applications ignored d apps)
  commit

unfoldable pub forget_updates : Device → Db → Db
forget_updates d db = record db {
  available_os_updates = keep (λ u. not (belongs_to d.id u.device_id)) db.available_os_updates;
}

abbrev pub claim_update : Device → AvailableOsUpdate → AvailableOsUpdate
claim_update d u = record u { device_id = some d.id }

unfoldable pub add_updates : Device → List AvailableOsUpdate → Db → Db
add_updates d updates db = record db {
  available_os_updates = db.available_os_updates ++ map (claim_update d) updates;
}

-- ack_available_os_updates
unfoldable pub ack_available_os_updates : LoadUpdates → Device → Fields → Exec Session (Unit {0})
unfolding forget_updates add_updates commit
ack_available_os_updates load d response = if is_error (get "Status" response) then pure tt else (do
  change (forget_updates d)
  updates ← lift (load response)
  change (add_updates d updates)
  commit)
