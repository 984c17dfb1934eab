-- ===== src/Examples/Applications.antt =====
-- A phone acknowledges an application that only a tablet has managed so far.
use commandment.Base.{inl, ◌≡◌, refl, String, false, none, some, [], ◌∷◌, keep}
use commandment.Python.Values.{null, text, arr, nil, Fields, end, field, get}
use commandment.Python.Exec.{ok}
use commandment.Store.Rows.{CommandRow, InstalledApplication, ManagedApplication, managed}
use commandment.Store.Session.{Session}
use commandment.Mdm.Handlers.{belongs_to}
use commandment.Mdm.Handlers.Applications.{
  is_error, attach, ack_install_application, ack_install_application-other_device,
}
use commandment.Mdm.Handlers.Inventory.{LoadApplications, claim_application, ack_installed_app_list}
use commandment.Mdm.Handlers.Inventory.Replaced.{
  kept_applications, with_applications, ack_installed_app_list-replaces,
}
use commandment.Examples.Mdm.{phone, two_queued, queued_row}

abbrev on_tablet : ManagedApplication
on_tablet = record {
  id = 1;
  device_id = some 2;
  bundle_id = text "com.example.app";
  external_version_id = null;
  has_configuration = null;
  has_feedback = null;
  is_validated = null;
  management_flags = null;
  status = some managed;
  application_id = none;
  ia_command_id = none;
}

abbrev before : Session
before = record {
  stored = record two_queued { managed_applications = on_tablet ∷ [] };
  working = record two_queued { managed_applications = on_tablet ∷ [] };
  draws = 0;
}

abbrev request : CommandRow
request = queued_row 7 "InstallApplication" end

abbrev response : Fields
response =
    field "Status" (text "Acknowledged")
      (field "Identifier" (text "com.example.app") (field "State" (text "Prompting") end))

response-no_error : is_error (get "Status" response) ≡ false
unfolding get
response-no_error = refl

response-named : get "Identifier" response ≡ some (text "com.example.app")
unfolding get
response-named = refl

ack_install_application-other_device_example :
    let (r, s) = ack_install_application request phone response before in
    (r ≡ ok tt)
    × (s.stored ≡ attach request on_tablet before.working)
    × (keep (λ x. belongs_to 1 x.device_id) s.stored.managed_applications ≡ [])
ack_install_application-other_device_example =
    ack_install_application-other_device request phone response (text "com.example.app") on_tablet
      before response-no_error response-named (inl refl) refl refl refl

abbrev installed : String → InstalledApplication
installed name = record {
  device_id = none;
  device_udid = null;
  bundle_identifier = text name;
  other = end;
}

abbrev load_two : LoadApplications
load_two found =
    ok (some (installed "com.apple.Maps") ∷ none ∷ some (installed "com.example.app") ∷ [])

abbrev listing : Fields
listing = field "InstalledApplicationList" (arr nil) end

listing-listed : get "InstalledApplicationList" listing ≡ some (arr nil)
unfolding get
listing-listed = refl

kept_maps :
    kept_applications
      ("com.apple.Maps" ∷ [])
      phone
      (some (installed "com.apple.Maps") ∷ none ∷ some (installed "com.example.app") ∷ [])
    ≡ claim_application phone (installed "com.example.app") ∷ []
kept_maps = refl

ack_installed_app_list-replaces_example :
    let (r, s) = ack_installed_app_list load_two ("com.apple.Maps" ∷ []) phone listing before in
    (r ≡ ok tt)
    × (s.stored
        ≡ with_applications
            (claim_application phone (installed "com.example.app") ∷ [])
            before.working)
ack_installed_app_list-replaces_example =
    ack_installed_app_list-replaces load_two ("com.apple.Maps" ∷ []) phone listing nil
      (some (installed "com.apple.Maps") ∷ none ∷ some (installed "com.example.app") ∷ []) before
      listing-listed refl
