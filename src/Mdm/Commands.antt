-- ===== src/Mdm/Commands.antt =====
-- commandment/mdm/commands.py: the command classes. A class is a constructor of `CommandClass`,
-- and what the class overrides is a clause. The base64 functions of Python's library are the
-- fields of a `Codec`.
pub mod Queries
pub mod Rehydrate
pub mod Registry
use commandment.Base.{
  ℕ, String, Bool, true, false, Option, none, some, List, [], ◌∷◌, str_eq, if◌then◌else◌,
}
use commandment.Python.Values.{
  Value, null, text, num, flag, blob, arr, dict, Items, nil, cons, Fields, end, field, get,
  contains, put, get_or, update, append,
}
use commandment.Python.Exec.{Result, ok, err, key_error, value_error, type_error, attribute_error}
use commandment.Mdm.Enums.{
  AccessRight, Platform, ios, macos, profile_inspection, profile_install_remove,
  device_lock_passcode_removal, device_erase, query_device_information, query_network_information,
  restriction_queries, security_queries, change_settings, manage_apps,
}

pub data CommandClass : Type 0 where
  device_information security_info device_lock clear_passcode profile_list : CommandClass
  install_profile remove_profile certificate_list provisioning_profile_list : CommandClass
  installed_application_list install_application managed_application_list : CommandClass
  restart_device shut_down_device erase_device request_mirroring stop_mirroring : CommandClass
  restrictions users_list log_out_user delete_user enable_lost_mode : CommandClass
  disable_lost_mode device_location play_lost_mode_sound available_os_updates : CommandClass
  settings : CommandClass

unfoldable pub request_type : CommandClass → String
request_type device_information = "DeviceInformation"
request_type security_info = "SecurityInfo"
request_type device_lock = "DeviceLock"
request_type clear_passcode = "ClearPasscode"
request_type profile_list = "ProfileList"
request_type install_profile = "InstallProfile"
request_type remove_profile = "RemoveProfile"
request_type certificate_list = "CertificateList"
request_type provisioning_profile_list = "ProvisioningProfileList"
request_type installed_application_list = "InstalledApplicationList"
request_type install_application = "InstallApplication"
request_type managed_application_list = "ManagedApplicationList"
request_type restart_device = "RestartDevice"
request_type shut_down_device = "ShutDownDevice"
request_type erase_device = "EraseDevice"
request_type request_mirroring = "RequestMirroring"
request_type stop_mirroring = "StopMirroring"
request_type restrictions = "Restrictions"
request_type users_list = "UsersList"
request_type log_out_user = "LogOutUser"
request_type delete_user = "DeleteUser"
request_type enable_lost_mode = "EnableLostMode"
request_type disable_lost_mode = "DisableLostMode"
request_type device_location = "DeviceLocation"
request_type play_lost_mode_sound = "PlayLostModeSound"
request_type available_os_updates = "AvailableOSUpdates"
request_type settings = "Settings"

-- require_supervised, false where the class does not say
unfoldable pub require_supervised : CommandClass → Bool
require_supervised stop_mirroring = true
require_supervised enable_lost_mode = true
require_supervised disable_lost_mode = true
require_supervised device_location = true
require_supervised play_lost_mode_sound = true
require_supervised _ = false

-- require_access, none where the class does not say
unfoldable pub require_access : CommandClass → List AccessRight
require_access device_information = query_device_information ∷ query_network_information ∷ []
require_access security_info = security_queries ∷ []
require_access device_lock = device_lock_passcode_removal ∷ []
require_access clear_passcode = device_lock_passcode_removal ∷ []
require_access profile_list = profile_inspection ∷ []
require_access install_profile = profile_install_remove ∷ []
require_access remove_profile = profile_install_remove ∷ []
require_access certificate_list = profile_inspection ∷ []
require_access provisioning_profile_list = profile_inspection ∷ []
require_access install_application = manage_apps ∷ []
require_access managed_application_list = manage_apps ∷ []
require_access restart_device = device_lock_passcode_removal ∷ []
require_access shut_down_device = device_lock_passcode_removal ∷ []
require_access erase_device = device_erase ∷ []
require_access restrictions = restriction_queries ∷ profile_inspection ∷ []
require_access settings = change_settings ∷ []
require_access _ = []

pub record Codec : Type 0 where
  pub b64encode : List ℕ → String
  pub b64decode : String → Option (List ℕ)
  pub b64decode_bytes : List ℕ → Option (List ℕ)

pub record Command : Type 0 where
  pub class : CommandClass
  pub uuid : String
  pub attrs : Fields

-- klass(uuid, **kwargs) binds `self` and `uuid` already
abbrev pub has_bound_name : Fields → Bool
has_bound_name kwargs = if contains "self" kwargs then true else contains "uuid" kwargs

-- One `if x is not None: self._attrs['settings'].append(…)` of Settings.__init__.
abbrev setting : String → String → Value → Result Value → Result Value
setting item key v (err e) = err e
setting item key null (ok xs) = ok xs
setting item key v (ok (arr xs)) =
    ok (arr (append xs (dict (field "Item" (text item) (field key v end)))))
setting item key v (ok _) = err attribute_error

unfoldable pub settings_of : Fields → Result Value
unfolding get_or get
settings_of kwargs = setting "Bluetooth" "Enabled" (get_or "bluetooth" null kwargs) (
    setting "DataRoaming" "Enabled" (get_or "data_roaming" null kwargs) (
      setting "PersonalHotspot" "Enabled" (get_or "personal_hotspot" null kwargs) (
        setting "VoiceRoaming" "Enabled" (get_or "voice_roaming" null kwargs) (
          setting "HostName" "HostName" (get_or "hostname" null kwargs) (
            setting "DeviceName" "DeviceName" (get_or "device_name" null kwargs)
              (ok (get_or "settings" (arr nil) kwargs)))))))

abbrev settings_attrs : Result Value → Result Fields
settings_attrs (err e) = err e
settings_attrs (ok xs) = ok (field "settings" xs end)

-- What `__init__` leaves in `self._attrs`, from arguments that are values. `.data` of a profile and
-- `.itunes_store_id` of an application are attributes that no value has.
unfoldable pub init_attrs : CommandClass → Fields → Result Fields
unfolding contains get get_or put update settings_of
init_attrs device_information kwargs = ok kwargs
init_attrs security_info kwargs = ok kwargs
init_attrs device_lock kwargs = ok kwargs
init_attrs clear_passcode kwargs = ok kwargs
init_attrs profile_list kwargs = ok kwargs
init_attrs certificate_list kwargs = ok kwargs
init_attrs provisioning_profile_list kwargs = ok kwargs
init_attrs install_profile kwargs =
    if contains "profile" kwargs then err attribute_error else ok kwargs
init_attrs remove_profile kwargs = ok (field "Identifier" (get_or "Identifier" null kwargs) end)
init_attrs installed_application_list kwargs = ok (update end kwargs)
init_attrs install_application kwargs =
    if contains "application" kwargs then err attribute_error else ok (update end kwargs)
init_attrs settings kwargs = settings_attrs (settings_of kwargs)
init_attrs _ end = ok end
init_attrs _ (field k v d) = err type_error

abbrev pub with_attrs : CommandClass → String → Result Fields → Result Command
with_attrs c uuid (err e) = err e
with_attrs c uuid (ok attrs) = ok (record { class = c; uuid = uuid; attrs = attrs })

-- klass(uuid, **kwargs)
unfoldable pub construct : CommandClass → String → Fields → Result Command
construct c uuid kwargs =
    if has_bound_name kwargs then err type_error else with_attrs c uuid (init_attrs c kwargs)

-- InstallProfile(uuid, profile=p), on the bytes p.data
unfoldable pub install_profile_of : Codec → String → List ℕ → Command
install_profile_of codec uuid bytes = record {
  class = install_profile;
  uuid = uuid;
  attrs = field "Payload" (text (codec.b64encode bytes)) end;
}

-- InstallApplication(uuid, application=app), on app.itunes_store_id
unfoldable pub install_application_of : String → Value → Command
install_application_of uuid itunes_store_id = record {
  class = install_application;
  uuid = uuid;
  attrs =
      field "iTunesStoreID" itunes_store_id
        (field "ManagementFlags" (num 1) (field "ChangeManagementState" (text "Managed") end));
}

-- {'CommandUUID': …, 'Command': …}
abbrev envelope : String → Fields → Fields
envelope uuid command = field "CommandUUID" (text uuid) (field "Command" (dict command) end)

abbrev pub request_fields : CommandClass → Fields → Fields
request_fields c rest = field "RequestType" (text (request_type c)) rest

abbrev optional : String → Fields → Fields → Fields
optional k attrs command = elim (get k attrs) [ none ↦ command | some v ↦ put k v command ]

abbrev decoded : Codec → Option Value → String → Result Value
decoded codec none key = err (key_error key)
decoded codec (some (text s)) key = elim (codec.b64decode s) [
  | none ↦ err value_error
  | some bytes ↦ ok (blob bytes)
]
decoded codec (some (blob bytes)) key = elim (codec.b64decode_bytes bytes) [
  | none ↦ err value_error
  | some out ↦ ok (blob out)
]
decoded codec (some _) key = err type_error

abbrev with_decoded : CommandClass → String → String → Result Value → Result Fields
with_decoded c uuid key (err e) = err e
with_decoded c uuid key (ok v) = ok (envelope uuid (request_fields c (field key v end)))

-- {'CommandUUID': str(self._uuid), 'Command': …}, by class.
unfoldable pub dict_of : Codec → CommandClass → String → Fields → Result Fields
unfolding request_type get get_or put update
dict_of codec device_information uuid attrs = ok (
    envelope uuid
      (request_fields device_information (field "Queries" (get_or "Queries" null attrs) end)))
dict_of codec device_lock uuid attrs = ok (
    envelope uuid (
      optional "PhoneNumber" attrs (
        optional "PIN" attrs (
          request_fields device_lock
            (field "Message" (get_or "Message" (text "Device is locked") attrs) end)))))
dict_of codec clear_passcode uuid attrs =
    with_decoded clear_passcode uuid "UnlockToken"
      (decoded codec (get "UnlockToken" attrs) "UnlockToken")
dict_of codec install_profile uuid attrs =
    with_decoded install_profile uuid "Payload" (decoded codec (get "Payload" attrs) "Payload")
dict_of codec remove_profile uuid attrs = ok (
    envelope uuid
      (request_fields remove_profile (field "Identifier" (get_or "Identifier" null attrs) end)))
dict_of codec installed_application_list uuid attrs =
    ok (envelope uuid (put "RequestType" (text (request_type installed_application_list)) attrs))
dict_of codec install_application uuid attrs =
    ok (envelope uuid (update (request_fields install_application end) attrs))
dict_of codec settings uuid attrs = elim (get "settings" attrs) [
  | none ↦ err (key_error "settings")
  | some xs ↦ ok (envelope uuid (request_fields settings (field "Settings" xs end)))
]
dict_of codec other uuid attrs = ok (envelope uuid (request_fields other end))

unfoldable pub to_dict : Codec → Command → Result Fields
unfolding dict_of
to_dict codec c = dict_of codec c.class c.uuid c.attrs
