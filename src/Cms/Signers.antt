-- ===== src/Cms/Signers.antt =====
-- commandment/cms/__init__.py and _verify_cms_signers of commandment/cms/decorators.py. What
-- asn1crypto parses are records of what the code reads; asn1crypto, cryptography and base64 are
-- Crypto. A loaded certificate is its bytes.
use commandment.Base.{
  ℕ, String, Bool, ◌&&◌, Option, none, some, List, [], ◌∷◌, ◌==◌, str_eq, if◌then◌else◌,
}
use commandment.Python.Exec.{
  assertion_error, value_error, type_error, index_error, Result, ok, err, or_raise,
}
use commandment.Python.Fallible.{◌>>=◌, assert}

abbrev pub Bytes : Type 0
Bytes = List ℕ

pub record Certificate : Type 0 where
  pub serial_number : ℕ
  pub issuer : String
  pub der : Bytes

-- A member of the certificates, and the kind that it is.
pub record CertificateChoice : Type 0 where
  pub name : String
  pub chosen : Certificate

pub record SignerIdentifier : Type 0 where
  pub name : String
  pub serial_number : ℕ
  pub issuer : String

pub record SignedAttr : Type 0 where
  pub kind : String
  pub values : List Bytes

-- No signed attributes are an empty list; `attrs_der` is what they are dumped to.
pub record SignerInfo : Type 0 where
  pub sid : SignerIdentifier
  pub digest_algorithm : String
  pub signature_algo : Result String
  pub signed_attrs : List SignedAttr
  pub attrs_der : Bytes
  pub signature : Bytes

pub record SignedData : Type 0 where
  pub certificates : List CertificateChoice
  pub signer_infos : List SignerInfo
  pub content_type : String
  pub content : Option Bytes

pub record ContentInfo : Type 0 where
  pub content_type : String
  pub content : SignedData

pub data Hash : Type 0 where
  sha1 sha256 sha512 : Hash

pub data Padding : Type 0 where
  pkcs1v15 : Padding

pub record Crypto : Type 0 where
  pub b64decode : String → Result Bytes
  pub load : Bytes → Result ContentInfo
  pub load_certificate : Bytes → Result Bytes
  -- certificate.public_key().verify(signature, data, padding, hash)
  pub verify : Bytes → Bytes → Bytes → Padding → Hash → Result (Unit {0})

unfoldable pub is_issued : SignerIdentifier → CertificateChoice → Bool
is_issued sid c =
    str_eq c.name "certificate"
    && (c.chosen.serial_number == sid.serial_number && str_eq c.chosen.issuer sid.issuer)

unfoldable pub first_issued : SignerIdentifier → List CertificateChoice → Option Certificate
unfolding is_issued
first_issued sid [] = none
first_issued sid (c ∷ cs) = if is_issued sid c then some c.chosen else first_issued sid cs

-- _certificate_by_signer_identifier
unfoldable pub certificate_by_signer_identifier :
    List CertificateChoice → SignerIdentifier → Option Certificate
unfolding first_issued
certificate_by_signer_identifier certificates sid =
    if str_eq sid.name "issuer_and_serial_number" then first_issued sid certificates else none

-- _cryptography_hash_function
unfoldable pub cryptography_hash_function : String → Option Hash
cryptography_hash_function name =
    if str_eq name "sha1"
    then some sha1
    else if str_eq name "sha256"
    then some sha256
    else if str_eq name "sha512"
    then some sha512
    else none

-- _cryptography_pad_function
unfoldable pub cryptography_pad_function : String → Option Padding
cryptography_pad_function name = if str_eq name "rsassa_pkcs1v15" then some pkcs1v15 else none

-- The log of the digests, which takes the first value of each.
unfoldable pub log_digests : List SignedAttr → Result (Unit {0})
log_digests [] = ok tt
log_digests (a ∷ attrs) =
    (if str_eq a.kind "message_digest" then logged a.values else ok tt) >>= λ _. log_digests attrs
  where
    logged : List Bytes → Result (Unit {0})
    logged [] = err index_error
    logged (v ∷ vs) = ok tt

-- The signature is of the signed attributes where there are some, and of the data otherwise.
unfoldable pub check_signature :
    Crypto
    → Option Bytes
    → SignerInfo
    → List SignedAttr
    → Bytes
    → Padding
    → Hash
    → Result (Unit {0})
unfolding log_digests
check_signature crypto body signer (a ∷ attrs) certificate pad hash =
    log_digests (a ∷ attrs) >>= λ _.
    crypto.verify certificate signer.signature signer.attrs_der pad hash
check_signature crypto none signer [] certificate pad hash = err type_error
check_signature crypto (some body) signer [] certificate pad hash =
    crypto.verify certificate signer.signature body pad hash

-- One signer; `check` is the test of its signature.
unfoldable pub verify_signer :
    Crypto → (Bytes → Padding → Hash → Result (Unit {0})) → SignedData → SignerInfo → Result Bytes
unfolding certificate_by_signer_identifier cryptography_hash_function cryptography_pad_function
verify_signer crypto check signed signer = do
  found ← or_raise (certificate_by_signer_identifier signed.certificates signer.sid) assertion_error
  certificate ← crypto.load_certificate found.der
  name ← signer.signature_algo
  hash ← or_raise (cryptography_hash_function signer.digest_algorithm) value_error
  pad ← or_raise (cryptography_pad_function name) value_error
  assert (str_eq signed.content_type "data") >>= λ _.
      check certificate pad hash >>= λ _. ok certificate

unfoldable pub verify_signers :
    Crypto → Option Bytes → SignedData → List SignerInfo → Result (List Bytes)
unfolding verify_signer check_signature
verify_signers crypto body signed [] = ok []
verify_signers crypto body signed (signer ∷ infos) = do
  c ← verify_signer crypto (check_signature crypto body signer signer.signed_attrs) signed signer
  cs ← verify_signers crypto body signed infos
  ok (c ∷ cs)

-- _verify_cms_signers, with request.data where the signature is detached
unfoldable pub verify_cms : Crypto → Bytes → Option Bytes → Result (List Bytes × Option Bytes)
unfolding verify_signers
verify_cms crypto signed_data detached = do
  info ← crypto.load signed_data
  assert (str_eq info.content_type "signed_data") >>= λ _.
      verify_signers crypto (body info.content) info.content info.content.signer_infos
      >>= λ signers. ok (signers, body info.content)
  where
    body : SignedData → Option Bytes
    body signed = elim detached [ none ↦ signed.content | some b ↦ some b ]
