-- ===== src/Mdm/Handlers/Sound.antt =====
-- The handlers that write no device row, and the invariant of the tables.
use commandment.Base.{
  String, refl, Bool, true, false, ◌++◌, Option, none, some, List, [], ◌∷◌, if◌then◌else◌,
}
use commandment.Python.Values.{Value, Items, nil, cons, dict, Fields, get}
use commandment.Python.Exec.{no_result_found, attribute_error, Result, ok, err, lift, gets}
use commandment.Store.Rows.{Device, CommandRow, InstalledApplication, ManagedApplication, Db}
use commandment.Store.Session.{change, one}
use commandment.Store.Tables.{HasSame, HasSame-trans}
use commandment.Mdm.Endpoint.{item}
use commandment.Mdm.Keeps.{
  Keeps, Keeps-other, Keeps-elsewhere, Keeps-gets, Keeps-raise, Keeps-if, Keeps-commit, Keeps-lift,
  Keeps-bind,
}
use commandment.Mdm.Handlers.Applications.{
  is_error, app_status_of, matching, attach, add_managed, attach_or_add, record_install,
  ack_install_application,
}
use commandment.Mdm.Handlers.Inventory.{
  Fingerprint, LoadApplications, LoadUpdates, forget_certificates, certificate_of, add_certificate,
  add_certificates, items_of, sized, ack_certificate_list, forget_applications, is_ignored,
  claim_application, add_applications, ack_installed_app_list, forget_updates, add_updates,
  ack_available_os_updates,
}

Keeps-add_certificates :
    (fingerprint : Fingerprint) (d : Device) (certs : Items)
    → Keeps (add_certificates fingerprint d certs)
unfolding add_certificates add_certificate
Keeps-add_certificates fingerprint d nil = Keeps-lift (ok tt)
Keeps-add_certificates fingerprint d (cons (dict cert) certs) =
    Keeps-bind (lift (certificate_of fingerprint d cert)) _ (Keeps-lift _) λ c.
      Keeps-bind (change (add_certificate c)) _ (Keeps-elsewhere (add_certificate c) refl)
        λ _. Keeps-add_certificates fingerprint d certs
Keeps-add_certificates fingerprint d (cons v certs) = Keeps-raise attribute_error

pub Keeps-ack_certificate_list :
    (fingerprint : Fingerprint) (d : Device) (response : Fields)
    → Keeps (ack_certificate_list fingerprint d response)
unfolding ack_certificate_list forget_certificates
Keeps-ack_certificate_list fingerprint d response =
    Keeps-bind (change (forget_certificates d)) _ (Keeps-elsewhere (forget_certificates d) refl)
      λ _. Keeps-bind (lift (item "CertificateList" response)) _ (Keeps-lift _) λ value.
        Keeps-bind (lift (items_of value)) _ (Keeps-lift _) λ certificates.
          Keeps-bind _ _ (Keeps-add_certificates fingerprint d certificates) (λ _. Keeps-commit)

unless-HasSame :
    (b : Bool) (d : Device) (a : InstalledApplication) (db : Db)
    → HasSame db (
        if b then db else record db {
          installed_applications = db.installed_applications ++ claim_application d a ∷ [];
        })
unless-HasSame true d a db = record {
  devices = refl;
  next_device_id = refl;
  commands = refl;
  next_command_id = refl;
}
unless-HasSame false d a db = record {
  devices = refl;
  next_device_id = refl;
  commands = refl;
  next_command_id = refl;
}

add_applications-HasSame :
    (ignored : List String) (d : Device) (apps : List (Option InstalledApplication)) (db : Db)
    → HasSame db (add_applications ignored d apps db)
unfolding add_applications
add_applications-HasSame ignored d [] db = record {
  devices = refl;
  next_device_id = refl;
  commands = refl;
  next_command_id = refl;
}
add_applications-HasSame ignored d (none ∷ apps) db = add_applications-HasSame ignored d apps db
add_applications-HasSame ignored d (some a ∷ apps) db =
    HasSame-trans db _ _ (unless-HasSame (is_ignored ignored a.bundle_identifier) d a db)
      (add_applications-HasSame ignored d apps _)

pub Keeps-ack_installed_app_list :
    (load : LoadApplications) (ignored : List String) (d : Device) (response : Fields)
    → Keeps (ack_installed_app_list load ignored d response)
unfolding ack_installed_app_list forget_applications
Keeps-ack_installed_app_list load ignored d response =
    Keeps-bind (change (forget_applications d)) _ (Keeps-elsewhere (forget_applications d) refl)
      λ _. Keeps-bind (lift (item "InstalledApplicationList" response)) _ (Keeps-lift _) λ value.
        Keeps-bind (lift (sized value)) _ (Keeps-lift _) λ _.
          Keeps-bind (lift (load response)) _ (Keeps-lift _) λ apps.
            Keeps-bind (change (add_applications ignored d apps)) _
              (Keeps-other (add_applications ignored d apps)
                (add_applications-HasSame ignored d apps))
              (λ _. Keeps-commit)

pub Keeps-ack_available_os_updates :
    (load : LoadUpdates) (d : Device) (response : Fields)
    → Keeps (ack_available_os_updates load d response)
unfolding ack_available_os_updates forget_updates add_updates
Keeps-ack_available_os_updates load d response =
    Keeps-if (is_error (get "Status" response)) _ _ (Keeps-lift (ok tt)) (
      Keeps-bind (change (forget_updates d)) _ (Keeps-elsewhere (forget_updates d) refl) λ _.
        Keeps-bind (lift (load response)) _ (Keeps-lift _) λ updates.
          Keeps-bind (change (add_updates d updates)) _
            (Keeps-elsewhere (add_updates d updates) refl) (λ _. Keeps-commit))

Keeps-attach_or_add :
    (row : CommandRow) (d : Device) (response : Fields) (identifier : Value)
    (r : Result ManagedApplication)
    → Keeps (attach_or_add row d response identifier r)
unfolding attach_or_add attach add_managed
Keeps-attach_or_add row d response identifier (ok a) =
    Keeps-bind (change (attach row a)) _ (Keeps-elsewhere (attach row a) refl) (λ _. Keeps-commit)
Keeps-attach_or_add row d response identifier (err no_result_found) =
    Keeps-bind (lift (item "State" response)) _ (Keeps-lift _) λ state.
      Keeps-bind (lift (app_status_of state)) _ (Keeps-lift _) λ status.
        Keeps-bind (change (add_managed row d identifier status)) _
          (Keeps-elsewhere (add_managed row d identifier status) refl) (λ _. Keeps-commit)
Keeps-attach_or_add row d response identifier (err e) = Keeps-raise e

pub Keeps-ack_install_application :
    (row : CommandRow) (d : Device) (response : Fields)
    → Keeps (ack_install_application row d response)
unfolding ack_install_application record_install
Keeps-ack_install_application row d response =
    Keeps-if (is_error (get "Status" response)) _ _ (Keeps-lift (ok tt)) (
      Keeps-bind (lift (item "Identifier" response)) _ (Keeps-lift _) λ identifier.
        Keeps-bind (gets (λ s. one (matching d identifier s.working))) _ (Keeps-gets _)
          λ found. Keeps-attach_or_add row d response identifier found)
