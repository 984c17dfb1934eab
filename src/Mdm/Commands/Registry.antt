-- ===== src/Mdm/Commands/Registry.antt =====
-- CommandRegistry and Command.new_request_type of commandment/mdm/commands.py.
use commandment.Base.{
  String, ◌≡◌, refl, sym, ap, ◌∙◌, Option, none, some, List, [], ◌∷◌, arith, str_eq, eq_iff,
  if◌then◌else◌,
}
use commandment.Python.Values.{Fields}
use commandment.Python.Exec.{Result, err, value_error}
use commandment.Mdm.Commands.{
  CommandClass, device_information, security_info, device_lock, clear_passcode, profile_list,
  install_profile, remove_profile, certificate_list, provisioning_profile_list,
  installed_application_list, install_application, managed_application_list, restart_device,
  shut_down_device, erase_device, request_mirroring, stop_mirroring, restrictions, users_list,
  log_out_user, delete_user, enable_lost_mode, disable_lost_mode, device_location,
  play_lost_mode_sound, available_os_updates, settings, request_type, Command, construct,
}

-- The classes that the metaclass registers, in the order of the file.
abbrev command_classes : List CommandClass
command_classes =
    device_information ∷ security_info ∷ device_lock ∷ clear_passcode ∷ profile_list
    ∷ install_profile ∷ remove_profile ∷ certificate_list ∷ provisioning_profile_list
    ∷ installed_application_list ∷ install_application ∷ managed_application_list ∷ restart_device
    ∷ shut_down_device ∷ erase_device ∷ request_mirroring ∷ stop_mirroring ∷ restrictions
    ∷ users_list ∷ log_out_user ∷ delete_user ∷ enable_lost_mode ∷ disable_lost_mode
    ∷ device_location ∷ play_lost_mode_sound ∷ available_os_updates ∷ settings ∷ []

find_among : List CommandClass → String → Option CommandClass
unfolding request_type
find_among [] s = none
find_among (c ∷ cs) s = if str_eq (request_type c) s then some c else find_among cs s

-- CommandRegistry.command_classes[request_type]
unfoldable pub find_class : String → Option CommandClass
unfolding find_among
find_class s = find_among command_classes s

abbrev instance_of : Option CommandClass → Fields → String → Result Command
instance_of none parameters uuid = err value_error
instance_of (some c) parameters uuid = construct c uuid parameters

-- Command.new_request_type
unfoldable pub new_request_type : String → Fields → String → Result Command
new_request_type name parameters uuid = instance_of (find_class name) parameters uuid

pub find_class-request_type : (c : CommandClass) → find_class (request_type c) ≡ some c
unfolding find_class
find_class-request_type device_information = refl
find_class-request_type _ = refl

pub new_request_type-request_type :
    (c : CommandClass) (parameters : Fields) (uuid : String)
    → new_request_type (request_type c) parameters uuid ≡ construct c uuid parameters
unfolding new_request_type
new_request_type-request_type c parameters uuid =
    ap (λ found. instance_of found parameters uuid) (find_class-request_type c)

find_among_sound :
    (cs : List CommandClass) (s : String) (c : CommandClass)
    → find_among cs s ≡ some c
    → request_type c ≡ s
unfolding find_among
find_among_sound [] s c h = ground arith
find_among_sound (d ∷ cs) s c h = ground (arith, eq_iff (request_type d) s, find_among_sound cs s c)

-- A name finds a command class exactly if it is the request type that the class declares.
pub find_class_exact :
    (s : String) (c : CommandClass)
    → (find_class s ≡ some c → request_type c ≡ s) × (request_type c ≡ s → find_class s ≡ some c)
find_class_exact s c = (
  λ h. find_among_sound command_classes s c (unfold find_class in h),
  λ h. ap find_class (sym h) ∙ find_class-request_type c,
)
