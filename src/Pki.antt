-- ===== src/Pki.antt =====
-- DeviceIdentityCertificate of commandment/pki/models.py. The attributes of a certificate of
-- cryptography, read once, are X509.
use commandment.Base.{
  ℕ, String, Bool, true, false, ◌&&◌, ◌==◌, any, Option, some, List, [], ◌∷◌, if◌then◌else◌,
}
use commandment.Python.Values.{text}
use commandment.Python.Exec.{index_error, integrity_error, Result, ok, err}
use commandment.Store.Rows.{DeviceIdentityCertificate}

pub record X509 : Type 0 where
  pub serial_number : ℕ
  pub pem : List ℕ
  pub not_valid_before : ℕ
  pub not_valid_after : ℕ
  pub sha256 : List ℕ
  -- subject.get_attributes_for_oid(NameOID.COMMON_NAME)
  pub common_names : List String

abbrev with_name : X509 → List String → Result DeviceIdentityCertificate
with_name c [] = err index_error
with_name c (name ∷ names) = ok (record {
  serial = c.serial_number;
  pem_data = c.pem;
  not_before = c.not_valid_before;
  not_after = c.not_valid_after;
  fingerprint = c.sha256;
  x509_cn = text name;
})

-- DeviceIdentityCertificate.from_crypto: a subject without a common name has no cns[0].
unfoldable pub from_crypto : X509 → Result DeviceIdentityCertificate
from_crypto c = with_name c c.common_names

abbrev same_bytes : List ℕ → List ℕ → Bool
same_bytes [] [] = true
same_bytes (x ∷ xs) (y ∷ ys) = (x == y) && same_bytes xs ys
same_bytes _ _ = false

-- The unique column `fingerprint`
unfoldable pub fresh :
    DeviceIdentityCertificate
    → List DeviceIdentityCertificate
    → Result (Option DeviceIdentityCertificate)
fresh c rows =
    if any (λ r. same_bytes r.fingerprint c.fingerprint) rows
    then err integrity_error
    else ok (some c)
