-- ===== src/Mdm/Handlers/Applications.antt =====
-- ack_install_application of commandment/mdm/handlers.py. Its query joins no tables, so its condition
-- on the device only asks that the device row is there.
use commandment.Base.{
  ℕ, suc, String, ◌≡◌, refl, ap, ◌∙◌, Bool, true, false, IsIn, ◌==◌, Option, none, some, List, [],
  ◌∷◌, ◌++◌, keep, any, arith, str_eq, if◌then◌else◌, Bool-cases, inl, inr,
}
use commandment.Python.Values.{Value, text, null, Fields, get, sql_eq}
use commandment.Python.Exec.{
  value_error, no_result_found, Result, ok, err, Exec, pure, raise, lift, gets, bind-ok, ◌>>=◌,
  ◌>>◌,
}
use commandment.Store.Rows.{
  Device, CommandRow, ManagedApplication, ManagedAppStatus, Db, needs_redemption, redeeming,
  prompting, prompting_for_login, installing, validating_purchase, managed, managed_but_uninstalled,
  prompting_for_update, prompting_for_update_login, prompting_for_management, updating,
  validating_update, unknown, user_installed_app, user_rejected, update_rejected,
  management_rejected, failed, queued,
}
use commandment.Store.Session.{Session, commit, one, change, save}
use commandment.Mdm.Endpoint.{item, item-some}
use commandment.Mdm.Handlers.{belongs_to}

-- ManagedAppStatus by its values
abbrev app_statuses : List (String × ManagedAppStatus)
app_statuses =
    ("NeedsRedemption", needs_redemption)
    ∷ ("Redeeming", redeeming)
    ∷ ("Prompting", prompting)
    ∷ ("PromptingForLogin", prompting_for_login)
    ∷ ("Installing", installing)
    ∷ ("ValidatingPurchase", validating_purchase)
    ∷ ("Managed", managed)
    ∷ ("ManagedButUninstalled", managed_but_uninstalled)
    ∷ ("PromptingForUpdate", prompting_for_update)
    ∷ ("PromptingForUpdateLogin", prompting_for_update_login)
    ∷ ("PromptingForManagement", prompting_for_management)
    ∷ ("Updating", updating)
    ∷ ("ValidatingUpdate", validating_update)
    ∷ ("Unknown", unknown)
    ∷ ("UserInstalledApp", user_installed_app)
    ∷ ("UserRejected", user_rejected)
    ∷ ("UpdateRejected", update_rejected)
    ∷ ("ManagementRejected", management_rejected)
    ∷ ("Failed", failed)
    ∷ ("Queued", queued)
    ∷ []

app_status_among : List (String × ManagedAppStatus) → String → Result ManagedAppStatus
app_status_among [] s = err value_error
app_status_among ((name, status) ∷ rest) s =
    if str_eq name s then ok status else app_status_among rest s

unfoldable pub app_status_of : Value → Result ManagedAppStatus
unfolding app_status_among
app_status_of (text s) = app_status_among app_statuses s
app_status_of v = err value_error

abbrev pub app_key : ManagedApplication → ℕ
app_key a = a.id

-- filter(Device.id == device.id, ManagedApplication.bundle_id == identifier)
unfoldable pub matching : Device → Value → Db → List ManagedApplication
matching d identifier db =
    if any (λ e. e.id == d.id) db.devices
    then keep (λ a. sql_eq a.bundle_id identifier) db.managed_applications
    else []

unfoldable pub attach : CommandRow → ManagedApplication → Db → Db
attach row a db = record db {
  managed_applications =
      save app_key (record a { ia_command_id = some row.id }) db.managed_applications;
}

unfoldable pub add_managed : CommandRow → Device → Value → ManagedAppStatus → Db → Db
add_managed row d identifier status db = record db {
  managed_applications =
      db.managed_applications
      ++ record {
        id = db.next_managed_id;
        device_id = some d.id;
        bundle_id = identifier;
        external_version_id = null;
        has_configuration = null;
        has_feedback = null;
        is_validated = null;
        management_flags = null;
        status = some status;
        application_id = none;
        ia_command_id = some row.id;
      }
        ∷ [];
  next_managed_id = suc db.next_managed_id;
}

-- What follows the query.
unfoldable pub attach_or_add :
    CommandRow → Device → Fields → Value → Result ManagedApplication → Exec Session (Unit {0})
unfolding attach add_managed item commit app_status_of
attach_or_add row d response identifier (ok a) = do change (attach row a); commit
attach_or_add row d response identifier (err no_result_found) = do
  state ← lift (item "State" response)
  status ← lift (app_status_of state)
  change (add_managed row d identifier status)
  commit
attach_or_add row d response identifier (err e) = raise e

abbrev pub is_error : Option Value → Bool
is_error (some (text s)) = str_eq s "Error"
is_error _ = false

unfoldable pub record_install : CommandRow → Device → Fields → Exec Session (Unit {0})
unfolding item one attach_or_add
record_install row d response = do
  identifier ← lift (item "Identifier" response)
  found ← gets (λ s. one (matching d identifier s.working))
  attach_or_add row d response identifier found

-- ack_install_application
unfoldable pub ack_install_application : CommandRow → Device → Fields → Exec Session (Unit {0})
ack_install_application row d response =
    if is_error (get "Status" response) then pure tt else record_install row d response

keep-save_other :
    (d : Device) (b : ManagedApplication) (apps : List ManagedApplication)
    → belongs_to d.id b.device_id ≡ false
    → keep (λ x. belongs_to d.id x.device_id) apps ≡ []
    → keep (λ x. belongs_to d.id x.device_id) (save app_key b apps) ≡ []
unfolding save
keep-save_other d b [] e h = refl
keep-save_other d b (x ∷ apps) e h = elim (Bool-cases (belongs_to d.id x.device_id)) [
  | inl own ↦ absurd (ground arith)
  | inr other ↦ elim (Bool-cases (app_key x == app_key b)) [
    | inl same ↦ rw (same, e) (keep-save_other d b apps e (ground arith))
    | inr differ ↦ rw (differ, other) (keep-save_other d b apps e (ground arith))
  ]
]

record_install-attach :
    (row : CommandRow) (d : Device) (response : Fields) (identifier : Value)
    (a : ManagedApplication) (s : Session)
    → get "Identifier" response ≡ some identifier
    → matching d identifier s.working ≡ a ∷ []
    → record_install row d response s
      ≡ (ok tt, record s { stored = attach row a s.working; working = attach row a s.working })
unfolding record_install commit one
record_install-attach row d response identifier a s named one_row =
    bind-ok (lift (item "Identifier" response))
      (λ i. gets (λ t. one (matching d i t.working)) >>= attach_or_add row d response i) s s
      identifier (ap (λ r. (r, s)) (item-some "Identifier" response identifier named))
    ∙ ap (λ rows. attach_or_add row d response identifier (one rows) s) one_row

device_there :
    (d : Device) (devices : List Device) → IsIn d devices → any (λ e. e.id == d.id) devices ≡ true
device_there d [] m = elim m [ ]
device_there d (x ∷ xs) (inl same) = rw⁻¹ same (ground arith)
device_there d (x ∷ xs) (inr m) = ground (arith, device_there d xs m)

matching-only :
    (d : Device) (identifier : Value) (a : ManagedApplication) (db : Db)
    → IsIn d db.devices
    → keep (λ x. sql_eq x.bundle_id identifier) db.managed_applications ≡ a ∷ []
    → matching d identifier db ≡ a ∷ []
unfolding matching
matching-only d identifier a db there only =
    ap (λ b. if b then keep (λ x. sql_eq x.bundle_id identifier) db.managed_applications else [])
      (device_there d db.devices there)
    ∙ only

-- Where a device row is in the table, a response without an error names an application, the only
-- row for that application belongs to another device and the responding device has no managed
-- application, ack_install_application succeeds, sets the command of the row of the other device
-- and changes nothing else, so the responding device still has none.
pub ack_install_application-other_device :
    (row : CommandRow) (d : Device) (response : Fields) (identifier : Value)
    (a : ManagedApplication) (s : Session)
    → is_error (get "Status" response) ≡ false
    → get "Identifier" response ≡ some identifier
    → IsIn d s.working.devices
    → keep (λ x. sql_eq x.bundle_id identifier) s.working.managed_applications ≡ a ∷ []
    → keep (λ x. belongs_to d.id x.device_id) s.working.managed_applications ≡ []
    → belongs_to d.id a.device_id ≡ false
    → let (r, s') = ack_install_application row d response s in
      (r ≡ ok tt)
      × (s'.stored ≡ attach row a s.working)
      × (keep (λ x. belongs_to d.id x.device_id) s'.stored.managed_applications ≡ [])
unfolding ack_install_application attach
ack_install_application-other_device row d response identifier a s no_error named there only no_own
      not_own =
    rw
      (
        no_error,
        record_install-attach row d response identifier a s named
            (matching-only d identifier a s.working there only),
      )
      (
        refl,
        refl,
        keep-save_other d (record a { ia_command_id = some row.id }) s.working.managed_applications
            not_own no_own,
      )
