-- ===== src/Examples/Cms.antt =====
-- A signature by signed attributes, a signature by none, and a cryptography that compares lengths.
use commandment.Base.{
  ◌≡◌, refl, String, false, ◌==◌, none, some, List, [], ◌∷◌, length, if◌then◌else◌,
}
use commandment.Python.Exec.{ok, err, Exec, pure, invalid_signature, http}
use commandment.Cms.Signers.{
  Certificate, SignerInfo, ContentInfo, Crypto, is_issued, certificate_by_signer_identifier,
  cryptography_hash_function, cryptography_pad_function, log_digests, check_signature,
  verify_signer, verify_signers, verify_cms,
}
use commandment.Cms.Decorators.{Request, Config, Globals, with_signers, verify_mdm_signature}
use commandment.Cms.Bodies.{verify_mdm_signature-any_body}
use commandment.Cms.Guard.{Guarded, verify_mdm_signature-Guarded}

abbrev device_certificate : Certificate
device_certificate = record { serial_number = 4; issuer = "CN=commandment"; der = 3 ∷ 3 ∷ [] }

abbrev signer : SignerInfo
signer = record {
  sid = record { name = "issuer_and_serial_number"; serial_number = 4; issuer = "CN=commandment" };
  digest_algorithm = "sha256";
  signature_algo = ok "rsassa_pkcs1v15";
  signed_attrs = record { kind = "message_digest"; values = (5 ∷ []) ∷ [] } ∷ [];
  attrs_der = 9 ∷ 9 ∷ [];
  signature = 7 ∷ 7 ∷ [];
}

abbrev signed_by : List SignerInfo → ContentInfo
signed_by infos = record {
  content_type = "signed_data";
  content = record {
    certificates = record { name = "certificate"; chosen = device_certificate } ∷ [];
    signer_infos = infos;
    content_type = "data";
    content = none;
  };
}

abbrev crypto : ContentInfo → Crypto
crypto info = record {
  b64decode = λ s. ok (1 ∷ []);
  load = λ b. ok info;
  load_certificate = λ der. ok der;
  verify = λ certificate signature signed pad hash.
      if length signature == length signed then ok tt else err invalid_signature;
}

abbrev enforced : Config
enforced = record { testing = false; debug = false }

abbrev request : Request
request = record { body = 1 ∷ 2 ∷ 3 ∷ []; content_type = none; mdm_signature = some "AQ==" }

abbrev nothing : Globals
nothing = record { signers = none; signed_data = none }

abbrev view : Exec Globals String
view = pure "handled"

accepted :
    verify_cms (crypto (signed_by (signer ∷ []))) (1 ∷ []) (some request.body)
    ≡ ok ((3 ∷ 3 ∷ []) ∷ [], some request.body)
unfolding verify_cms verify_signers verify_signer check_signature log_digests
    certificate_by_signer_identifier is_issued cryptography_hash_function cryptography_pad_function
accepted = refl

verify_mdm_signature-any_body_example :
    verify_mdm_signature
      (crypto (signed_by (signer ∷ [])))
      enforced
      (record request { body = 8 ∷ [] })
      view
      nothing
    ≡ view (with_signers ((3 ∷ 3 ∷ []) ∷ [], some (8 ∷ [])) nothing)
verify_mdm_signature-any_body_example =
    verify_mdm_signature-any_body (crypto (signed_by (signer ∷ []))) enforced request view "AQ=="
      (1 ∷ []) (8 ∷ []) (signed_by (signer ∷ [])) ((3 ∷ 3 ∷ []) ∷ []) nothing refl refl refl refl
      (tt, tt) accepted

verify_mdm_signature-Guarded_example :
    Guarded
      (crypto (signed_by (signer ∷ [])))
      request
      view
      nothing
      (verify_mdm_signature (crypto (signed_by (signer ∷ []))) enforced request view nothing)
verify_mdm_signature-Guarded_example =
    verify_mdm_signature-Guarded (crypto (signed_by (signer ∷ []))) enforced request view nothing
      refl refl

-- No signer at all is accepted, too.
unsigned_accepted :
    verify_mdm_signature (crypto (signed_by [])) enforced request view nothing
    ≡ (ok "handled", with_signers ([], some request.body) nothing)
unfolding verify_mdm_signature verify_cms verify_signers
unsigned_accepted = refl

-- Without signed attributes a body of another length is refused.
other_body_refused :
    verify_mdm_signature
      (crypto (signed_by (record signer { signed_attrs = [] } ∷ [])))
      enforced
      request
      view
      nothing
    ≡ (err (http 403), nothing)
unfolding verify_mdm_signature verify_cms verify_signers verify_signer check_signature log_digests
    certificate_by_signer_identifier is_issued cryptography_hash_function cryptography_pad_function
other_body_refused = refl
