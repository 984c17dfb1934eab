-- ===== src/Dep/Rows.antt =====
-- The dictionary of a device in a page, and the device row that dep_fetch_devices of
-- commandment/dep/threads.py makes of it.
use commandment.Base.{
  ℕ, zero, suc, String, Bool, true, false, none, List, [], ◌∷◌, any, str_eq, not, if◌then◌else◌,
}
use commandment.Python.Values.{
  Value, null, text, num, flag, Fields, end, field, get_or, contains, put,
}
use commandment.Python.Exec.{
  key_error, type_error, value_error, Result, ok, err, Exec, pure, lift, gets, modify, ◌>>=◌, ◌>>◌,
}
use commandment.Store.Rows.{Device}
use commandment.Mdm.Endpoint.{item}
use commandment.Mdm.Handlers.Information.{set_attribute}
use commandment.Dep.Account.{DateParser}

-- DEPOperationType(value): each of its members leads on to the same statements.
unfoldable pub operation_of : Value → Result (Unit {0})
operation_of (text s) =
    if str_eq s "added"
    then ok tt
    else if str_eq s "modified"
    then ok tt
    else if str_eq s "deleted"
    then ok tt
    else err value_error
operation_of _ = err value_error

-- del d[k]
unfoldable pub without : String → Fields → Fields
without k end = end
without k (field j v d) = if str_eq j k then d else field j v (without k d)

unfoldable pub delete_key : String → Exec Fields (Unit {0})
unfolding contains without
delete_key k d = if contains k d then (ok tt, without k d) else (err (key_error k), d)

-- `device['profile_status'] != 'empty'`
abbrev pub is_assigned : Value → Bool
is_assigned (text s) = not (str_eq s "empty")
is_assigned _ = true

-- d.name = device[name]
unfoldable pub assign_item : String → Fields → Exec Device (Unit {0})
unfolding item set_attribute
assign_item k device = do v ← lift (item k device); modify (set_attribute k v)

unfoldable pub assign_date : DateParser → String → Fields → Exec Device (Unit {0})
unfolding item set_attribute
assign_date parse k device = do
  v ← lift (item k device)
  t ← lift (parse v)
  modify (set_attribute k (num t))

unfoldable pub assign_profile_columns : DateParser → Fields → Exec Device (Unit {0})
unfolding assign_date get_or set_attribute
assign_profile_columns parse device = do
  modify (set_attribute "profile_uuid" (get_or "profile_uuid" null device))
  assign_date parse "profile_assign_time" device

-- The assignments to a known device.
unfoldable pub update_device : DateParser → Fields → Exec Device (Unit {0})
unfolding assign_item assign_date assign_profile_columns
update_device parse device = do
  assign_item "description" device
  assign_item "model" device
  assign_item "os" device
  assign_item "device_family" device
  assign_item "color" device
  assign_item "profile_status" device
  status ← lift (item "profile_status" device)
  if is_assigned status then assign_profile_columns parse device else pure tt
  assign_item "device_assigned_by" device
  assign_date parse "device_assigned_date" device
  modify (set_attribute "is_dep" (flag true))

-- device[k] = dateutil.parser.parse(device[k])
unfoldable pub parse_key : DateParser → String → Exec Fields (Unit {0})
unfolding item put
parse_key parse k = do v ← gets (item k); x ← lift v; t ← lift (parse x); modify (put k (num t))

-- The dictionary of an unknown device, up to the constructor of Device.
unfoldable pub prepare_device : DateParser → Exec Fields (Unit {0})
unfolding item parse_key delete_key contains
prepare_device parse = do
  found ← gets (item "profile_status")
  status ← lift found
  if is_assigned status then parse_key parse "profile_assign_time" else pure tt
  parse_key parse "device_assigned_date"
  synced ← gets (contains "op_type")
  if synced
      then (do
        delete_key "op_type"
        delete_key "op_date"
        delete_key "profile_assign_time"
        delete_key "device_assigned_date")
      else pure tt

-- The columns of Device that a JSON value is set to as it is, with those that rows keep by name.
abbrev pub dep_columns : List (String × (Value → Device → Device))
dep_columns =
    ("topic", λ v d. record d { topic = v })
    ∷ ("push_magic", λ v d. record d { push_magic = v })
    ∷ ("unlock_token", λ v d. record d { unlock_token = v })
    ∷ ("last_apns_id", λ v d. record d { last_apns_id = v })
    ∷ ("model", λ v d. record d { model = v })
    ∷ ("model_name", λ v d. record d { model_name = v })
    ∷ ("device_name", λ v d. record d { device_name = v })
    ∷ ("os_version", λ v d. record d { os_version = v })
    ∷ ("build_version", λ v d. record d { build_version = v })
    ∷ ("product_name", λ v d. record d { product_name = v })
    ∷ ("imei", λ v d. record d { imei = v })
    ∷ ("meid", λ v d. record d { meid = v })
    ∷ []

abbrev pub plain_columns : List String
plain_columns =
    "failed_push_count" ∷ "last_cloud_backup_date" ∷ "awaiting_configuration"
    ∷ "itunes_store_account_is_active" ∷ "itunes_store_account_hash" ∷ "device_capacity"
    ∷ "available_device_capacity" ∷ "battery_level" ∷ "cellular_technology"
    ∷ "modem_firmware_version" ∷ "is_supervised" ∷ "is_device_locator_service_enabled"
    ∷ "is_activation_lock_enabled" ∷ "is_do_not_disturb_in_effect" ∷ "device_id"
    ∷ "eas_device_identifier" ∷ "is_cloud_backup_enabled" ∷ "local_hostname" ∷ "hostname"
    ∷ "sip_enabled" ∷ "is_mdm_lost_mode_enabled" ∷ "maximum_resident_users" ∷ "osu_catalog_url"
    ∷ "osu_is_default_catalog" ∷ "osu_previous_scan_date" ∷ "osu_previous_scan_result"
    ∷ "osu_perform_periodic_check" ∷ "osu_automatic_check_enabled"
    ∷ "osu_background_download_enabled" ∷ "osu_automatic_app_installation_enabled"
    ∷ "osu_automatic_os_installation_enabled" ∷ "osu_automatic_security_updates_enabled" ∷ "iccid"
    ∷ "bluetooth_mac" ∷ "wifi_mac" ∷ "current_carrier_network" ∷ "sim_carrier_network"
    ∷ "subscriber_carrier_network" ∷ "carrier_settings_version" ∷ "phone_number"
    ∷ "voice_roaming_enabled" ∷ "data_roaming_enabled" ∷ "is_roaming" ∷ "personal_hotspot_enabled"
    ∷ "subscriber_mcc" ∷ "subscriber_mnc" ∷ "current_mcc" ∷ "current_mnc" ∷ "passcode_present"
    ∷ "passcode_compliant" ∷ "passcode_compliant_with_profiles"
    ∷ "passcode_lock_grace_period_enforced" ∷ "fde_enabled" ∷ "fde_has_prk" ∷ "fde_has_irk"
    ∷ "fde_personal_recovery_key_cms" ∷ "fde_personal_recovery_key_device_key" ∷ "firewall_enabled"
    ∷ "block_all_incoming" ∷ "stealth_mode_enabled" ∷ "activation_lock_escrow_key" ∷ "is_dep"
    ∷ "description" ∷ "color" ∷ "asset_tag" ∷ "profile_status" ∷ "profile_uuid"
    ∷ "profile_assign_time" ∷ "profile_push_time" ∷ "device_assigned_date" ∷ "device_assigned_by"
    ∷ "os" ∷ "device_family" ∷ "certificate_id" ∷ "dep_profile_id" ∷ "_unlock_token" ∷ []

abbrev pub set_key : Value → Device → Result Device
set_key null d = ok d
set_key (num n) d = ok (record d { id = n })
set_key v d = err type_error

-- The token setter encodes bytes, which no JSON value is.
abbrev pub set_token : Value → Device → Result Device
set_token null d = ok (record d { token = null })
set_token v d = err type_error

-- None is no more True than False is; 0 and 1 are the flags that SQLAlchemy takes too.
abbrev pub set_enrolled : Value → Device → Result Device
set_enrolled null d = ok (record d { is_enrolled = false })
set_enrolled (num zero) d = ok (record d { is_enrolled = false })
set_enrolled (num (suc zero)) d = ok (record d { is_enrolled = true })
set_enrolled (flag b) d = ok (record d { is_enrolled = b })
set_enrolled v d = err type_error

-- A time that only the server sets: no JSON value but None is one.
abbrev pub set_time : Value → Device → Result Device
set_time null d = ok d
set_time v d = err type_error

abbrev pub server_times : List String
server_times = "last_seen" ∷ "tokenupdate_at" ∷ "last_push_at" ∷ []

unfoldable pub set_dep_column :
    List (String × (Value → Device → Device)) → String → Value → Device → Result Device
unfolding put
set_dep_column [] k v d =
    if any (str_eq k) plain_columns
    then ok (record d { other = put k v d.other })
    else err type_error
set_dep_column ((name, setter) ∷ rest) k v d =
    if str_eq k name then ok (setter v d) else set_dep_column rest k v d

unfoldable pub set_other : String → Value → Device → Result Device
unfolding set_dep_column
set_other k v d =
    if str_eq k "token"
    then set_token v d
    else if str_eq k "is_enrolled"
    then set_enrolled v d
    else if any (str_eq k) server_times
    then set_time v d
    else set_dep_column dep_columns k v d

-- One keyword of Device(**device). What is no attribute is a TypeError; the
-- relationships and the properties without a setter refuse a JSON value too, here or at the flush.
unfoldable pub set_keyword : String → Value → Device → Result Device
unfolding set_other
set_keyword k v d =
    if str_eq k "id"
    then set_key v d
    else if str_eq k "udid"
    then ok (record d { udid = v })
    else if str_eq k "serial_number"
    then ok (record d { serial_number = v })
    else set_other k v d

-- The keys of a dictionary are distinct, so the order of the keywords is of no account.
unfoldable pub set_keywords : Fields → Device → Result Device
unfolding set_keyword
set_keywords end d = ok d
set_keywords (field k v device) d = elim (set_keywords device d) [
  | ok d' ↦ set_keyword k v d'
  | err e ↦ err e
]

abbrev pub blank_device : ℕ → Device
blank_device id = record {
  id = id;
  udid = null;
  last_seen = none;
  is_enrolled = false;
  topic = null;
  push_magic = null;
  token = null;
  unlock_token = null;
  tokenupdate_at = none;
  last_push_at = none;
  last_apns_id = null;
  build_version = null;
  device_name = null;
  model = null;
  model_name = null;
  os_version = null;
  product_name = null;
  serial_number = null;
  imei = null;
  meid = null;
  certificate = none;
  other = end;
  tags = [];
}

abbrev pub with_dep : Result Device → Result Device
with_dep (ok d) = ok (set_attribute "is_dep" (flag true) d)
with_dep (err e) = err e

-- Device(**device), with is_dep set; the number is the next one, unless the device names its own.
unfoldable pub dep_device : ℕ → Fields → Result Device
unfolding set_keywords set_attribute
dep_device id device = with_dep (set_keywords device (blank_device id))
