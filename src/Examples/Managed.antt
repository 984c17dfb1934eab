-- ===== src/Examples/Managed.antt =====
-- A phone whose tag has two applications reports one of them; the other one is queued already.
use commandment.Base.{◌≡◌, refl, false, some, [], ◌∷◌, ◌++◌, map}
use commandment.Python.Values.{null, num, text, flag, dict, Fields, end, field, get, contains}
use commandment.Python.Exec.{ok}
use commandment.Store.Rows.{Device, Application, ManagedApplication, queued}
use commandment.Store.Session.{Session, one}
use commandment.Mdm.Handlers.Applications.{is_error, matching, app_status_of}
use commandment.Mdm.Endpoint.{item}
use commandment.Mdm.Handlers.Responses.{requested}
use commandment.Mdm.Handlers.Managed.{
  report_all, report_managed, found_or_new, new_managed, insert_managed, put_managed, with_report,
  ack_managed_application_list,
}
use commandment.Mdm.Handlers.Managed.Installs.{
  application_of, applications_of, unreported, ack_managed_application_list-installs,
}
use commandment.Examples.Mdm.{services, phone, two_queued}

abbrev mail : Application
mail = record { id = 1; bundle_id = "com.example.mail"; itunes_store_id = num 7 }

abbrev maps : Application
maps = record { id = 2; bundle_id = "com.example.maps"; itunes_store_id = num 8 }

abbrev holder : Device
holder = record phone { tags = record { profiles = []; applications = mail ∷ maps ∷ [] } ∷ [] }

abbrev waiting : ManagedApplication
waiting = record {
  id = 1;
  device_id = some 1;
  bundle_id = null;
  external_version_id = null;
  has_configuration = null;
  has_feedback = null;
  is_validated = null;
  management_flags = null;
  status = some queued;
  application_id = some 2;
  ia_command_id = some 1;
}

abbrev before : Session
before = record {
  stored = record two_queued { managed_applications = waiting ∷ []; next_managed_id = 2 };
  working = record two_queued { managed_applications = waiting ∷ []; next_managed_id = 2 };
  draws = 0;
}

abbrev mail_status : Fields
mail_status = field "Status" (text "Managed") (
    field "HasConfiguration" (flag false) (
      field "HasFeedback" (flag false)
        (field "IsValidated" (flag false) (field "ManagementFlags" (num 0) end))))

abbrev reported : Fields
reported = field "com.example.mail" (dict mail_status) end

abbrev response : Fields
response = field "Status" (text "Acknowledged") (field "ManagedApplicationList" (dict reported) end)

response-no_error : is_error (get "Status" response) ≡ false
unfolding get
response-no_error = refl

response-listed : get "ManagedApplicationList" response ≡ some (dict reported)
unfolding get
response-listed = refl

report_mail : report_all holder reported before ≡ (ok tt, (report_all holder reported before).1)
unfolding report_all report_managed one matching found_or_new new_managed insert_managed item
    app_status_of with_report put_managed get
report_mail = refl

only_maps : unreported reported (applications_of holder.tags) ≡ maps ∷ []
unfolding contains
only_maps = refl

ack_managed_application_list-installs_example :
    let (r, s) = ack_managed_application_list services holder response before in
    (r ≡ ok tt)
    × (map requested s.stored.commands
        ≡ map requested two_queued.commands ++ application_of holder maps ∷ [])
unfolding contains
ack_managed_application_list-installs_example =
    ack_managed_application_list-installs services holder response reported before
      (report_all holder reported before).1 response-no_error response-listed report_mail
