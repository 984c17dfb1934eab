-- ===== src/Mdm/Enums.antt =====
-- The enumerations of commandment/mdm/__init__.py.
use Prim.Native.Nat.{◌^◌, bit_or}
use mathlib.Core.List.{foldr}
use commandment.Base.{ℕ, String, Bool, Option, none, some, List, [], ◌∷◌, str_eq, if◌then◌else◌}

pub data Platform : Type 0 where
  unknown macos ios tvos : Platform

abbrev pub platform_eq : Platform → Platform → Bool
platform_eq unknown unknown = Bool.true
platform_eq macos macos = Bool.true
platform_eq ios ios = Bool.true
platform_eq tvos tvos = Bool.true
platform_eq _ _ = Bool.false

-- The states of a command in the queue: what a client answers, then what the server adds.
pub data CommandStatus : Type 0 where
  idle acknowledged error command_format_error not_now queued sent expired : CommandStatus

unfoldable pub status_value : CommandStatus → String
status_value idle = "Idle"
status_value acknowledged = "Acknowledged"
status_value error = "Error"
status_value command_format_error = "CommandFormatError"
status_value not_now = "NotNow"
status_value queued = "Queued"
status_value sent = "Sent"
status_value expired = "Expired"

-- CommandStatus(value); none is the ValueError.
unfoldable pub status_of_value : String → Option CommandStatus
status_of_value v =
    if str_eq v "Idle"
    then some idle
    else if str_eq v "Acknowledged"
    then some acknowledged
    else if str_eq v "Error"
    then some error
    else if str_eq v "CommandFormatError"
    then some command_format_error
    else if str_eq v "NotNow"
    then some not_now
    else if str_eq v "Queued"
    then some queued
    else if str_eq v "Sent"
    then some sent
    else if str_eq v "Expired"
    then some expired
    else none

abbrev pub is_idle : CommandStatus → Bool
is_idle idle = Bool.true
is_idle _ = Bool.false

abbrev pub is_queued : CommandStatus → Bool
is_queued queued = Bool.true
is_queued _ = Bool.false

pub data AccessRight : Type 0 where
  profile_inspection profile_install_remove device_lock_passcode_removal : AccessRight
  device_erase query_device_information query_network_information : AccessRight
  prov_profile_inspection prov_profile_install_remove installed_applications : AccessRight
  restriction_queries security_queries change_settings manage_apps : AccessRight

abbrev pub all_rights : List AccessRight
all_rights =
    profile_inspection ∷ profile_install_remove ∷ device_lock_passcode_removal ∷ device_erase
    ∷ query_device_information ∷ query_network_information ∷ prov_profile_inspection
    ∷ prov_profile_install_remove ∷ installed_applications ∷ restriction_queries ∷ security_queries
    ∷ change_settings ∷ manage_apps ∷ []

-- The `count` that `auto()` hands to `_generate_next_value_`: the place in the declaration.
abbrev pub position : AccessRight → ℕ
position profile_inspection = 0
position profile_install_remove = 1
position device_lock_passcode_removal = 2
position device_erase = 3
position query_device_information = 4
position query_network_information = 5
position prov_profile_inspection = 6
position prov_profile_install_remove = 7
position installed_applications = 8
position restriction_queries = 9
position security_queries = 10
position change_settings = 11
position manage_apps = 12

unfoldable pub access_value : AccessRight → ℕ
access_value r = 2 ^ position r

-- AccessRights.All
unfoldable pub access_all : ℕ
unfolding access_value
access_all = foldr (λ r n. bit_or (access_value r) n) 0 all_rights
