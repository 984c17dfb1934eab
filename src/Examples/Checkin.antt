-- ===== src/Examples/Checkin.antt =====
-- The messages that a phone checks in with.
use commandment.Base.{◌≤◌, ◌≡◌, refl, Option, List, none, some, [], ◌∷◌, keep, length, arith}
use commandment.Python.Values.{Value, text, blob, Fields, end, field}
use commandment.Store.Tables.{IsSound, has_udid}
use commandment.Python.Exec.{err, index_error, integrity_error}
use commandment.Pki.{X509}
use commandment.Mdm.Checkin.{identity}
use commandment.Mdm.Checkin.Routes.{serve_checkin}
use commandment.Mdm.Checkin.Unique.{serve_checkin-IsSound}
use commandment.Examples.Mdm.{services, apns, biplist, phone, two_queued}

abbrev pub token_message : Fields
token_message = field "MessageType" (text "TokenUpdate") (
    field "UDID" (text "U1") (
      field "PushMagic" (text "M1")
        (field "Topic" (text "com.example.mdm") (field "Token" (blob (1 ∷ 2 ∷ [])) end))))

abbrev identity_certificate : X509
identity_certificate = record {
  serial_number = 77;
  pem = 1 ∷ 2 ∷ [];
  not_valid_before = 10;
  not_valid_after = 900;
  sha256 = 5 ∷ 6 ∷ [];
  common_names = "device-identity" ∷ [];
}

abbrev signed : Option (List X509)
signed = some (identity_certificate ∷ [])

has_udid-phone : (u : Value) → length (keep (has_udid u) (phone ∷ [])) ≤ 1
has_udid-phone u = ground arith

pub two_queued-IsSound : IsSound two_queued
two_queued-IsSound = record {
  device_keys = (tt, tt);
  device_fresh = (omega arith, tt);
  udids = has_udid-phone;
  command_keys = ((λ e. omega arith, tt), (tt, tt));
  command_fresh = (omega arith, (omega arith, tt));
}

abbrev authenticate_message : Fields
authenticate_message = field "MessageType" (text "Authenticate") (field "UDID" (text "U2") end)

serve_checkin-IsSound_example :
    IsSound (serve_checkin services apns biplist none (some authenticate_message) two_queued).1
serve_checkin-IsSound_example =
    serve_checkin-IsSound services apns biplist none (some authenticate_message) two_queued
      two_queued-IsSound

abbrev check_out_message : Fields
check_out_message = field "MessageType" (text "CheckOut") (field "UDID" (text "U1") end)

-- A signature without signers, and a certificate whose fingerprint is taken, queue nothing.
nothing_queued :
    (identity (some []) [] ≡ err index_error)
    × (identity signed (
          record {
            serial = 7;
            pem_data = [];
            not_before = 0;
            not_after = 0;
            fingerprint = 5 ∷ 6 ∷ [];
            x509_cn = text "other";
          }
          ∷ [])
        ≡ err integrity_error)
unfolding identity
nothing_queued = (refl, refl)
