-- ===== src/Vpp/Requests.antt =====
-- The requests of VPP in commandment/vpp/vpp.py, and raise_error_replies of
-- commandment/vpp/decorators.py. A body is built key by key, as the source assigns them; None is an
-- argument that is left out.
pub mod Saving
use commandment.Base.{
  ℕ, String, Bool, true, false, Option, none, some, List, [], ◌∷◌, if◌then◌else◌, ◌==◌,
}
use commandment.Python.Values.{
  Value, null, text, num, negsuc, flag, arr, Items, nil, cons, Fields, end, field, get, put, get_or,
  truthy,
}
use commandment.Python.Exec.{Exn, Result, ok, err, key_error, type_error, runtime_error, or_raise}
use commandment.Vpp.{Post, Vpp}
use commandment.Vpp.Operation.{Association, Disassociation, Operation}

infixl 5 ◌>>=◌
abbrev pub ◌>>=◌ : {A B : Type 0} → Result A → (A → Result B) → Result B
ok a >>= f = f a
err e >>= f = err e

-- The reply, or VPPAPIError with its number and its message.
pub data ApiResult : Type 0 where
  reply : Fields → ApiResult
  api_error : Value → Value → ApiResult
  raised : Exn → ApiResult

-- reply['status'] == -1
abbrev is_error_status : Value → Bool
is_error_status (negsuc n) = n == 0
is_error_status _ = false

abbrev error_of : Result Value → Result Value → ApiResult
error_of (err e) m = raised e
error_of (ok n) (err e) = raised e
error_of (ok n) (ok m) = api_error n m

unfoldable pub raise_error_replies : Result Fields → ApiResult
raise_error_replies (err e) = raised e
raise_error_replies (ok r) = checked (or_raise (get "status" r) (key_error "status"))
  where
    checked : Result Value → ApiResult
    checked (err e) = raised e
    checked (ok status) =
        if is_error_status status
        then error_of (or_raise (get "errorNumber" r) (key_error "errorNumber"))
            (or_raise (get "errorMessage" r) (key_error "errorMessage"))
        else reply r

-- self._session.post(self._service_config[key], data=json.dumps(body)).json()
unfoldable pub call : Vpp → Post → String → Fields → Result Fields
call vpp post key body = do
  url ← or_raise (get key vpp.service_config) (key_error key)
  post url body

-- request_body[key] = value, unless the argument is None
abbrev pub put_some : String → Value → Fields → Fields
put_some key null body = body
put_some key v body = put key v body

abbrev pub is_none : Value → Bool
is_none null = true
is_none _ = false

unfoldable pub register_user : Vpp → Post → Value → Value → ApiResult
unfolding raise_error_replies call
register_user vpp post client_user_id email = raise_error_replies (
    call vpp post "registerUserSrvUrl" (
      field "clientUserIdStr" client_user_id (field "email" email (field "sToken" vpp.stoken end))))

-- By the user id, or else by the client's user id.
unfoldable pub identified : Vpp → Value → Value → Fields
identified vpp null client_user_id =
    field "sToken" vpp.stoken (field "clientUserIdStr" client_user_id end)
identified vpp user_id client_user_id = field "sToken" vpp.stoken (field "userId" user_id end)

unfoldable pub get_user_body : Vpp → Value → Value → Value → Fields
unfolding identified put
get_user_body vpp client_user_id its_id_hash user_id =
    if is_none user_id
    then put_some "itsIdHash" its_id_hash (identified vpp user_id client_user_id)
    else identified vpp user_id client_user_id

unfoldable pub get_user : Vpp → Post → Value → Value → Value → ApiResult
unfolding get_user_body raise_error_replies call
get_user vpp post client_user_id its_id_hash user_id =
    raise_error_replies
      (call vpp post "getUserSrvUrl" (get_user_body vpp client_user_id its_id_hash user_id))

unfoldable pub retire_user : Vpp → Post → Value → Value → ApiResult
unfolding identified raise_error_replies call
retire_user vpp post client_user_id user_id =
    raise_error_replies (call vpp post "retireUserSrvUrl" (identified vpp user_id client_user_id))

unfoldable pub edit_user_body : Vpp → Value → Value → Value → Value → Fields
unfolding identified put
edit_user_body vpp client_user_id email user_id managed_apple_id =
    put_some "managedAppleIDStr" managed_apple_id
      (put_some "email" email (identified vpp user_id client_user_id))

unfoldable pub edit_user : Vpp → Post → Value → Value → Value → Value → ApiResult
unfolding edit_user_body raise_error_replies call
edit_user vpp post client_user_id email user_id managed_apple_id = raise_error_replies (
    call vpp post "editUserSrvUrl"
      (edit_user_body vpp client_user_id email user_id managed_apple_id))

unfoldable pub assets : Vpp → Post → Bool → ApiResult
unfolding raise_error_replies call
assets vpp post include_license_counts = raise_error_replies (
    call vpp post "getVPPAssetsSrvUrl"
      (field "sToken" vpp.stoken (field "includeLicenseCounts" (flag include_license_counts) end)))

-- VPP.AssociationProperties and VPP.DisassociationProperties
unfoldable pub association_property : Association → String
association_property Association.client_user_id = "associateClientUserIdStrs"
association_property Association.serial_number = "associateSerialNumbers"

unfoldable pub disassociation_property : Disassociation → String
disassociation_property Disassociation.serial_number = "disassociateSerialNumbers"
disassociation_property Disassociation.client_user_id = "disassociateClientUserIdStrs"
disassociation_property Disassociation.license_id = "disassociateLicenseIdStrs"

-- json.dumps of a member of LicenseAssociationType or of LicenseDisassociationType: a plain Enum is
-- no JSON value.
unfoldable pub json_association : Association → Result Value
json_association a = err type_error

unfoldable pub json_disassociation : Disassociation → Result Value
json_disassociation d = err type_error

-- json.dumps of a list of pairs, by what it makes of their first parts
unfoldable pub json_pairs {ℓ} : {T : Type ℓ} → (T → Result Value) → List (T × String) → Result Items
json_pairs encode [] = ok nil
json_pairs encode ((member, s) ∷ xs) = elim (encode member) [
  | err e ↦ err e
  | ok v ↦ elim (json_pairs encode xs) [
    | err e ↦ err e
    | ok items ↦ ok (cons (arr (cons v (cons (text s) nil))) items)
  ]
]

-- VPP.save
unfoldable pub save : Vpp → Post → Operation → Bool → Result Fields
unfolding association_property disassociation_property json_pairs json_association
    json_disassociation put
save vpp post op notify = do
  a ← or_raise op.association_type (key_error "None")
  d ← or_raise op.disassociation_type (key_error "None")
  url ←
      or_raise (get "manageVPPLicensesByAdamIdSrvUrl" vpp.service_config)
        (key_error "manageVPPLicensesByAdamIdSrvUrl")
  associations ← json_pairs json_association op.associate
  disassociations ← json_pairs json_disassociation op.disassociate
  post url (
      field "sToken" vpp.stoken (
        field "adamIdStr" op.adam_id (
          field "pricingParam" op.pricing_param (
            field "notifyDisassociation" (flag notify) (
              field (association_property a) (arr associations)
                (field (disassociation_property d) (arr disassociations) end))))))

abbrev texts : List String → Items
texts [] = nil
texts (x ∷ xs) = cons (text x) (texts xs)

-- json.dumps of an optional list of strings
abbrev pub json_texts : Option (List String) → Value
json_texts none = null
json_texts (some xs) = arr (texts xs)

abbrev with_associations : Option Association → Option (List String) → Fields → Fields
with_associations none values body = body
with_associations (some a) values body = put (association_property a) (json_texts values) body

abbrev with_disassociations : Option Disassociation → Option (List String) → Fields → Fields
with_disassociations none values body = body
with_disassociations (some d) values body = put (disassociation_property d) (json_texts values) body

unfoldable pub bulk_update_body :
    Vpp
    → Value
    → Option Association
    → Option (List String)
    → Option Disassociation
    → Option (List String)
    → Value
    → Bool
    → Fields
unfolding association_property disassociation_property put
bulk_update_body vpp adam_id a associate d disassociate pricing_param notify =
    with_disassociations d disassociate (
      with_associations a associate (
        field "sToken" vpp.stoken (
          field "adamIdStr" adam_id
            (field "pricingParam" pricing_param (field "notifyDisassociation" (flag notify) end)))))

-- VPP.bulk_update_licenses
unfoldable pub bulk_update_licenses :
    Vpp
    → Post
    → Value
    → Option Association
    → Option (List String)
    → Option Disassociation
    → Option (List String)
    → Value
    → Bool
    → Result Fields
unfolding bulk_update_body call
bulk_update_licenses vpp post adam_id a associate d disassociate pricing_param notify =
    call vpp post "manageVPPLicensesByAdamIdSrvUrl"
      (bulk_update_body vpp adam_id a associate d disassociate pricing_param notify)
