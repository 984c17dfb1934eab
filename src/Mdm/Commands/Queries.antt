-- ===== src/Mdm/Commands/Queries.antt =====
-- DeviceInformation.Queries, Requirements and for_platform of commandment/mdm/commands.py.
use commandment.Base.{
  String, Bool, true, false, Option, none, some, List, [], ◌∷◌, ◌++◌, keep, str_eq, if◌then◌else◌,
}
use commandment.Python.Values.{text, arr, Items, nil, cons, end, field}
use commandment.Mdm.Enums.{Platform, ios, macos, tvos, platform_eq}
use commandment.Mdm.Commands.{Command, device_information}

abbrev general_queries : List String
general_queries =
    "UDID" ∷ "Languages" ∷ "Locales" ∷ "DeviceID" ∷ "OrganizationInfo" ∷ "LastCloudBackupDate"
    ∷ "AwaitingConfiguration" ∷ "AutoSetupAdminAccounts" ∷ "iTunesStoreAccountIsActive"
    ∷ "iTunesStoreAccountHash" ∷ []

abbrev device_queries : List String
device_queries =
    "DeviceName" ∷ "OSVersion" ∷ "BuildVersion" ∷ "ModelName" ∷ "Model" ∷ "ProductName"
    ∷ "SerialNumber" ∷ "DeviceCapacity" ∷ "AvailableDeviceCapacity" ∷ "BatteryLevel"
    ∷ "CellularTechnology" ∷ "IMEI" ∷ "MEID" ∷ "ModemFirmwareVersion" ∷ "IsSupervised"
    ∷ "IsDeviceLocatorServiceEnabled" ∷ "IsActivationLockEnabled" ∷ "IsDoNotDisturbInEffect"
    ∷ "EASDeviceIdentifier" ∷ "IsCloudBackupEnabled" ∷ "OSUpdateSettings" ∷ "LocalHostName"
    ∷ "HostName" ∷ "SystemIntegrityProtectionEnabled" ∷ "ActiveManagedUsers"
    ∷ "IsMDMLostModeEnabled" ∷ "MaximumResidentUsers" ∷ []

abbrev network_queries : List String
network_queries =
    "ICCID" ∷ "BluetoothMAC" ∷ "WiFiMAC" ∷ "EthernetMACs" ∷ "CurrentCarrierNetwork"
    ∷ "SIMCarrierNetwork" ∷ "SubscriberCarrierNetwork" ∷ "CarrierSettingsVersion" ∷ "PhoneNumber"
    ∷ "VoiceRoamingEnabled" ∷ "DataRoamingEnabled" ∷ "IsRoaming" ∷ "PersonalHotspotEnabled"
    ∷ "SubscriberMCC" ∷ "SubscriberMNC" ∷ "CurrentMCC" ∷ "CurrentMNC" ∷ "CurrentConsoleManagedUser"
    ∷ []

-- [q.value for q in cls.Queries]
unfoldable pub all_queries : List String
all_queries = general_queries ++ device_queries ++ network_queries

abbrev Requirement : Type 0
Requirement = String × List (Platform × String)

abbrev requirements : List Requirement
requirements =
    ("Languages", (ios, ">=7") ∷ (tvos, ">=6") ∷ (macos, ">=10.10") ∷ [])
    ∷ ("Locales", (ios, ">=7") ∷ (tvos, ">=6") ∷ (macos, ">=10.10") ∷ [])
    ∷ ("DeviceID", (tvos, ">=6") ∷ [])
    ∷ ("OrganizationInfo", (ios, ">=7") ∷ [])
    ∷ ("LastCloudBackupDate", (ios, ">=8") ∷ (macos, ">=10.10") ∷ [])
    ∷ ("AwaitingConfiguration", (ios, ">=9") ∷ [])
    ∷ ("AutoSetupAdminAccounts", (macos, ">=10.11") ∷ [])
    ∷ ("BatteryLevel", (ios, ">=5") ∷ [])
    ∷ ("CellularTechnology", (ios, ">=4.2.6") ∷ [])
    ∷ ("iTunesStoreAccountIsActive", (ios, ">=7") ∷ (macos, ">=10.9") ∷ [])
    ∷ ("iTunesStoreAccountHash", (ios, ">=8") ∷ (macos, ">=10.10") ∷ [])
    ∷ ("IMEI", (ios, "*") ∷ [])
    ∷ ("MEID", (ios, "*") ∷ [])
    ∷ ("ModemFirmwareVersion", (ios, "*") ∷ [])
    ∷ ("IsSupervised", (ios, ">=6") ∷ [])
    ∷ ("IsDeviceLocatorServiceEnabled", (ios, ">=7") ∷ [])
    ∷ ("IsActivationLockEnabled", (ios, ">=7") ∷ (macos, ">=10.9") ∷ [])
    ∷ ("IsDoNotDisturbInEffect", (ios, ">=7") ∷ [])
    ∷ ("EASDeviceIdentifier", (ios, ">=7") ∷ (macos, ">=10.9") ∷ [])
    ∷ ("IsCloudBackupEnabled", (ios, ">=7.1") ∷ [])
    ∷ ("OSUpdateSettings", (macos, ">=10.11") ∷ [])
    ∷ ("LocalHostName", (macos, ">=10.11") ∷ [])
    ∷ ("HostName", (macos, ">=10.11") ∷ [])
    ∷ ("SystemIntegrityProtectionEnabled", (macos, ">=10.12") ∷ [])
    ∷ ("ActiveManagedUsers", (macos, ">=10.11") ∷ [])
    ∷ ("IsMDMLostModeEnabled", (ios, ">=9.3") ∷ [])
    ∷ ("MaximumResidentUsers", (ios, ">=9.3") ∷ [])
    ∷ []

requirement_of : String → List Requirement → Option (List (Platform × String))
requirement_of q [] = none
requirement_of q ((name, platforms) ∷ rest) =
    if str_eq name q then some platforms else requirement_of q rest

-- The loop over the platforms of a query; the versions are not compared.
names_platform : Platform → List (Platform × String) → Bool
names_platform p [] = false
names_platform p ((req, version) ∷ rest) = if platform_eq req p then true else names_platform p rest

unfoldable pub supported : Platform → String → Bool
unfolding requirement_of names_platform
supported platform query = elim (requirement_of query requirements) [
  | none ↦ true
  | some platforms ↦ names_platform platform platforms
]

abbrev texts : List String → Items
texts [] = nil
texts (q ∷ qs) = cons (text q) (texts qs)

-- DeviceInformation.for_platform, with the wanted queries as strings or None.
unfoldable pub for_platform : String → Platform → Option (List String) → Command
unfolding supported all_queries
for_platform uuid platform queries = record {
  class = device_information;
  uuid = uuid;
  attrs = field "Queries" (arr (texts (keep (supported platform) (wanted queries)))) end;
}
  where
    wanted : Option (List String) → List String
    wanted none = all_queries
    wanted (some qs) = qs
