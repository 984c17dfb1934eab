-- ===== src/Cms/Decorators.antt =====
-- verify_cms_signers and verify_mdm_signature of commandment/cms/decorators.py around a view. The
-- state is what they put on `g`.
use commandment.Base.{String, Bool, Option, none, some, List, if◌then◌else◌, str_eq}
use commandment.Python.Exec.{
  http, key_error, type_error, invalid_signature, Result, ok, err, Exec, raise, or_raise,
}
use commandment.Cms.Signers.{Bytes, Crypto, verify_cms}

pub record Request : Type 0 where
  pub body : Bytes
  pub content_type : Option String
  pub mdm_signature : Option String

pub record Config : Type 0 where
  pub testing : Bool
  pub debug : Bool

pub record Globals : Type 0 where
  pub signers : Option (List Bytes)
  pub signed_data : Option (Option Bytes)

abbrev pub with_signers : List Bytes × Option Bytes → Globals → Globals
with_signers (signers, signed_data) g = record {
  signers = some signers;
  signed_data = some signed_data;
}

-- The view, where the message has been verified.
abbrev pub if_verified :
    {A : Type 0} → Result (List Bytes × Option Bytes) → Exec Globals A → Exec Globals A
if_verified (ok verified) view g = view (with_signers verified g)
if_verified (err e) view g = (err e, g)

unfoldable pub verify_cms_signers :
    {A : Type 0} → Crypto → Config → Request → Exec Globals A → Exec Globals A
unfolding verify_cms
verify_cms_signers {A = A} crypto config request view =
    if config.testing
    then view
    else checked (or_raise request.content_type (key_error "Content-Type"))
  where
    checked : Result String → Exec Globals A
    checked (err e) = raise e
    checked (ok t) =
        if str_eq t "application/pkcs7-signature"
        then if_verified (verify_cms crypto request.body none) view
        else raise type_error

-- `except InvalidSignature`
abbrev pub unless_invalid :
    {A : Type 0} → Config → Result (List Bytes × Option Bytes) → Exec Globals A → Exec Globals A
unless_invalid config (err invalid_signature) view = if config.debug then view else raise (http 403)
unless_invalid config r view = if_verified r view

abbrev pub with_detached :
    {A : Type 0} → Crypto → Config → Request → Result Bytes → Exec Globals A → Exec Globals A
with_detached crypto config request (ok detached) view =
    unless_invalid config (verify_cms crypto detached (some request.body)) view
with_detached crypto config request (err e) view = raise e

abbrev pub with_signature :
    {A : Type 0} → Crypto → Config → Request → Option String → Exec Globals A → Exec Globals A
with_signature crypto config request none view = raise type_error
with_signature crypto config request (some header) view =
    with_detached crypto config request (crypto.b64decode header) view

unfoldable pub verify_mdm_signature :
    {A : Type 0} → Crypto → Config → Request → Exec Globals A → Exec Globals A
verify_mdm_signature crypto config request view =
    if config.testing then view else with_signature crypto config request request.mdm_signature view
