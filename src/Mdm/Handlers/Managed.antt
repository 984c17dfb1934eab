-- ===== src/Mdm/Handlers/Managed.antt =====
-- ack_managed_application_list of commandment/mdm/handlers.py.
pub mod Installs
pub mod Sound
use commandment.Base.{
  ℕ, suc, String, Bool, true, false, Option, none, some, List, [], ◌∷◌, ◌++◌, if◌then◌else◌,
}
use commandment.Python.Values.{Value, text, null, dict, Fields, end, field, get, get_or, contains}
use commandment.Python.Exec.{
  type_error, attribute_error, no_result_found, Result, ok, err, Exec, pure, raise, lift, gets,
  ◌>>=◌, ◌>>◌,
}
use commandment.Store.Rows.{
  Device, Tag, Application, ManagedApplication, ManagedAppStatus, Db, queued,
}
use commandment.Store.Session.{Session, commit, one, change, save}
use commandment.Mdm.Commands.{install_application_of}
use commandment.Mdm.Queue.{Services, draw_uuid, enqueue}
use commandment.Mdm.Endpoint.{item}
use commandment.Mdm.Handlers.Applications.{is_error, app_status_of, app_key, matching}

-- A row of a device with no other column set.
unfoldable pub new_managed : Device → Value → Db → ManagedApplication
new_managed d bundle_id db = record {
  id = db.next_managed_id;
  device_id = some d.id;
  bundle_id = bundle_id;
  external_version_id = null;
  has_configuration = null;
  has_feedback = null;
  is_validated = null;
  management_flags = null;
  status = none;
  application_id = none;
  ia_command_id = none;
}

unfoldable pub insert_managed : ManagedApplication → Db → Db
insert_managed a db = record db {
  managed_applications = db.managed_applications ++ a ∷ [];
  next_managed_id = suc db.next_managed_id;
}

-- The row that the query finds, or a new one.
unfoldable pub found_or_new :
    Device → String → Result ManagedApplication → Exec Session ManagedApplication
unfolding new_managed insert_managed
found_or_new d bundle_id (ok a) = pure a
found_or_new d bundle_id (err no_result_found) = do
  a ← gets (λ s. new_managed d (text bundle_id) s.working)
  change (insert_managed a)
  pure a
found_or_new d bundle_id (err e) = raise e

unfoldable pub put_managed : ManagedApplication → Exec Session (Unit {0})
unfolding save
put_managed a =
    change (λ db. record db { managed_applications = save app_key a db.managed_applications })

-- The columns that a report sets.
unfoldable pub with_report :
    Fields
    → ManagedAppStatus
    → Value
    → Value
    → Value
    → Value
    → ManagedApplication
    → ManagedApplication
unfolding get_or
with_report reported status has_configuration has_feedback is_validated management_flags a =
    record a {
      status = some status;
      external_version_id = get_or "ExternalVersionIdentifier" null reported;
      has_configuration = has_configuration;
      has_feedback = has_feedback;
      is_validated = is_validated;
      management_flags = management_flags;
    }

-- One application of the response.
unfoldable pub report_managed : Device → String → Fields → Exec Session (Unit {0})
unfolding one matching found_or_new item app_status_of with_report put_managed
report_managed d bundle_id reported = do
  found ← gets (λ s. one (matching d (text bundle_id) s.working))
  a ← found_or_new d bundle_id found
  state ← lift (item "Status" reported)
  status ← lift (app_status_of state)
  has_configuration ← lift (item "HasConfiguration" reported)
  has_feedback ← lift (item "HasFeedback" reported)
  is_validated ← lift (item "IsValidated" reported)
  management_flags ← lift (item "ManagementFlags" reported)
  put_managed
      (with_report reported status has_configuration has_feedback is_validated management_flags a)

unfoldable pub report_all : Device → Fields → Exec Session (Unit {0})
unfolding report_managed
report_all d end = pure tt
report_all d (field bundle_id (dict reported) rest) =
    report_managed d bundle_id reported >> report_all d rest
report_all d (field bundle_id v rest) = raise type_error

-- ManagedApplication(device=device, application=app, ia_command=dbc, status=Queued)
unfoldable pub queue_managed : Device → Application → ℕ → Db → Db
unfolding new_managed insert_managed
queue_managed d app command db =
    insert_managed
      (record (new_managed d null db) {
        application_id = some app.id;
        ia_command_id = some command;
        status = some queued;
      })
      db

-- An application that the response does not have is queued.
unfoldable pub install_unreported :
    Services → Device → Fields → Application → Exec Session (Unit {0})
unfolding contains draw_uuid install_application_of enqueue queue_managed
install_unreported services d reported app =
    if contains app.bundle_id reported then pure tt else (do
      uuid ← draw_uuid services
      command ← gets (λ s. s.working.next_command_id)
      enqueue (install_application_of uuid app.itunes_store_id) d.id
      change (queue_managed d app command))

unfoldable pub install_all : Services → Device → Fields → List Application → Exec Session (Unit {0})
unfolding install_unreported
install_all services d reported [] = pure tt
install_all services d reported (app ∷ apps) =
    install_unreported services d reported app >> install_all services d reported apps

unfoldable pub install_tags : Services → Device → Fields → List Tag → Exec Session (Unit {0})
unfolding install_all
install_tags services d reported [] = pure tt
install_tags services d reported (tag ∷ tags) =
    install_all services d reported tag.applications >> install_tags services d reported tags

abbrev pub fields_of : Value → Result Fields
fields_of (dict fields) = ok fields
fields_of v = err attribute_error

-- ack_managed_application_list
unfoldable pub ack_managed_application_list : Services → Device → Fields → Exec Session (Unit {0})
unfolding item report_all install_tags commit
ack_managed_application_list services d response =
    if is_error (get "Status" response) then pure tt else (do
      value ← lift (item "ManagedApplicationList" response)
      reported ← lift (fields_of value)
      report_all d reported
      commit
      install_tags services d reported d.tags
      commit)
