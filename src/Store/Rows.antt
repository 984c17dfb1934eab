-- ===== src/Store/Rows.antt =====
-- Rows of commandment/models.py, apps/models.py, inventory/models.py and profiles/models.py. A
-- column that a request fills from a plist holds a Python value, None for NULL.
use commandment.Base.{ℕ, String, Bool, Option, List}
use commandment.Python.Values.{Value, Fields}
use commandment.Mdm.Enums.{CommandStatus}

-- The columns of Profile that the handlers read.
pub record Profile : Type 0 where
  pub uuid : String
  pub contents : List ℕ

pub record Application : Type 0 where
  pub id : ℕ
  pub bundle_id : String
  pub itunes_store_id : Value

pub record Tag : Type 0 where
  pub profiles : List Profile
  pub applications : List Application

-- Certificate of the discriminator DEVICE, with the columns that from_crypto sets.
pub record DeviceIdentityCertificate : Type 0 where
  pub serial : ℕ
  pub pem_data : List ℕ
  pub not_before : ℕ
  pub not_after : ℕ
  pub fingerprint : List ℕ
  pub x509_cn : Value

-- The columns that the modelled code names; `other` holds what else DeviceInformation sets.
pub record Device : Type 0 where
  pub id : ℕ
  pub udid : Value
  pub last_seen : Option ℕ
  pub is_enrolled : Bool
  pub topic : Value
  pub push_magic : Value
  pub token : Value
  pub unlock_token : Value
  pub tokenupdate_at : Option ℕ
  pub last_push_at : Option ℕ
  pub last_apns_id : Value
  pub build_version : Value
  pub device_name : Value
  pub model : Value
  pub model_name : Value
  pub os_version : Value
  pub product_name : Value
  pub serial_number : Value
  pub imei : Value
  pub meid : Value
  pub certificate : Option DeviceIdentityCertificate
  pub other : Fields
  pub tags : List Tag

-- Command, without queued_at, which no modelled code reads.
pub record CommandRow : Type 0 where
  pub id : ℕ
  pub request_type : String
  pub uuid : String
  pub parameters : Fields
  pub status : CommandStatus
  pub sent_at : Option ℕ
  pub acknowledged_at : Option ℕ
  pub after : Option ℕ
  pub ttl : ℕ
  pub device_id : Option ℕ

pub data ManagedAppStatus : Type 0 where
  needs_redemption redeeming prompting prompting_for_login installing : ManagedAppStatus
  validating_purchase managed managed_but_uninstalled prompting_for_update : ManagedAppStatus
  prompting_for_update_login prompting_for_management updating : ManagedAppStatus
  validating_update unknown user_installed_app user_rejected : ManagedAppStatus
  update_rejected management_rejected failed queued : ManagedAppStatus

pub record ManagedApplication : Type 0 where
  pub id : ℕ
  pub device_id : Option ℕ
  pub bundle_id : Value
  pub external_version_id : Value
  pub has_configuration : Value
  pub has_feedback : Value
  pub is_validated : Value
  pub management_flags : Value
  pub status : Option ManagedAppStatus
  pub application_id : Option ℕ
  pub ia_command_id : Option ℕ

pub record InstalledPayload : Type 0 where
  pub identifier : Value
  pub payload_type : Value
  pub device_id : Option ℕ

pub record InstalledProfile : Type 0 where
  pub device_id : Option ℕ
  pub device_udid : Value
  pub is_managed : Value
  pub payload_identifier : Value
  pub payload_uuid : Option String
  pub payload_content : List InstalledPayload

pub record InstalledCertificate : Type 0 where
  pub device_id : Option ℕ
  pub device_udid : Value
  pub x509_cn : Value
  pub is_identity : Value
  pub der_data : Value
  pub fingerprint_sha256 : Value

-- `other` holds the columns that the handlers do not read.
pub record InstalledApplication : Type 0 where
  pub device_id : Option ℕ
  pub device_udid : Value
  pub bundle_identifier : Value
  pub other : Fields

pub record AvailableOsUpdate : Type 0 where
  pub device_id : Option ℕ
  pub other : Fields

pub record Db : Type 0 where
  pub devices : List Device
  pub next_device_id : ℕ
  pub certificates : List DeviceIdentityCertificate
  pub commands : List CommandRow
  pub next_command_id : ℕ
  pub installed_profiles : List InstalledProfile
  pub installed_payloads : List InstalledPayload
  pub managed_applications : List ManagedApplication
  pub next_managed_id : ℕ
  pub installed_certificates : List InstalledCertificate
  pub installed_applications : List InstalledApplication
  pub available_os_updates : List AvailableOsUpdate
