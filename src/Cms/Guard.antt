-- ===== src/Cms/Guard.antt =====
-- Which requests verify_mdm_signature lets through to the view.
use commandment.Base.{
  ◌≡◌, refl, sym, ap, subst, ◌⊎◌, inl, inr, String, false, ◌∙◌, Option, none, some, List, [], ◌∷◌,
  str_eq,
}
use commandment.Python.Exec.{
  Exn, invalid_signature, http, type_error, value_error, assertion_error, Result, ok, err, Exec,
  ok_inj, or_raise, or_raise-some,
}
use commandment.Python.Fallible.{assert, first_ok}
use commandment.Cms.Signers.{
  Bytes, Certificate, pkcs1v15, Hash, Padding, SignedAttr, SignerInfo, SignedData, ContentInfo,
  Crypto, log_digests, cryptography_hash_function, cryptography_pad_function,
  certificate_by_signer_identifier, check_signature, verify_signer, verify_signers, verify_cms,
}
use commandment.Cms.Issued.{
  IsIssued, digest_name, found-IsIssued, hash_function-digest, pad_function-padded,
}
use commandment.Cms.Decorators.{
  Request, Config, Globals, with_signers, unless_invalid, with_signature, with_detached,
  verify_mdm_signature,
}

-- What a signature is of.
abbrev pub signed_bytes : Bytes → SignerInfo → List SignedAttr → Bytes
signed_bytes body signer [] = body
signed_bytes body signer (a ∷ attrs) = signer.attrs_der

-- The signature of a signer has been verified by the certificate that it names, with the
-- algorithms that it names.
pub record IsVerified (crypto : Crypto) (body : Bytes) (signed : SignedData) (signer : SignerInfo)
    (certificate : Bytes) : Type 0 where
  pub found : Certificate
  pub issued : IsIssued signer.sid signed.certificates found
  pub loaded : crypto.load_certificate found.der ≡ ok certificate
  pub hash : Hash
  pub digest : signer.digest_algorithm ≡ digest_name hash
  pub padded : signer.signature_algo ≡ ok "rsassa_pkcs1v15"
  pub valid :
      crypto.verify certificate signer.signature
        (signed_bytes body signer signer.signed_attrs)
        pkcs1v15
        hash
      ≡ ok tt

abbrev pub AreVerified : Crypto → Bytes → SignedData → List SignerInfo → List Bytes → Type 0
AreVerified crypto body signed [] [] = Unit
AreVerified crypto body signed (i ∷ infos) (c ∷ certificates) =
    IsVerified crypto body signed i c × AreVerified crypto body signed infos certificates
AreVerified crypto body signed [] (c ∷ certificates) = ⊥
AreVerified crypto body signed (i ∷ infos) [] = ⊥

check_signature-valid :
    (crypto : Crypto) (body : Bytes) (signer : SignerInfo) (attrs : List SignedAttr) (c : Bytes)
    (pad : Padding) (hash : Hash)
    → check_signature crypto (some body) signer attrs c pad hash ≡ ok tt
    → crypto.verify c signer.signature (signed_bytes body signer attrs) pad hash ≡ ok tt
unfolding check_signature
check_signature-valid crypto body signer [] c pad hash h = h
check_signature-valid crypto body signer (a ∷ attrs) c pad hash h =
    (first_ok (log_digests (a ∷ attrs)) _ _ h).2

verify_signer-IsVerified :
    (crypto : Crypto) (body : Bytes) (signed : SignedData) (signer : SignerInfo) (c : Bytes)
    → verify_signer crypto
        (check_signature crypto (some body) signer signer.signed_attrs)
        signed
        signer
      ≡ ok c
    → IsVerified crypto body signed signer c
unfolding verify_signer
verify_signer-IsVerified crypto body signed signer c h =
    let (found, h0, named) =
      first_ok
        (or_raise (certificate_by_signer_identifier signed.certificates signer.sid) assertion_error)
        _ _ h in
    let (certificate, h1, loaded) = first_ok (crypto.load_certificate found.der) _ _ named in
    let (name, h2, algorithm) = first_ok signer.signature_algo _ _ loaded in
    let (hash, h3, hashed) =
      first_ok (or_raise (cryptography_hash_function signer.digest_algorithm) value_error) _ _
        algorithm in
    let (pad, h4, padded) =
      first_ok (or_raise (cryptography_pad_function name) value_error) _ _ hashed in
    let (t, h5, plain) = first_ok (assert (str_eq signed.content_type "data")) _ _ padded in
    let (u, checked, same) =
      first_ok (check_signature crypto (some body) signer signer.signed_attrs certificate pad hash)
        _ _ plain in
    let valid =
      check_signature-valid crypto body signer signer.signed_attrs certificate pad hash checked in
    let digest =
      hash_function-digest signer.digest_algorithm hash (or_raise-some _ value_error hash h3) in
    let padded_by = pad_function-padded name pad (or_raise-some _ value_error pad h4) in
    subst (IsVerified crypto body signed signer) (ok_inj certificate c same) (record {
      found = found;
      issued =
          found-IsIssued signed.certificates signer.sid found
            (or_raise-some _ assertion_error found h0);
      loaded = h1;
      hash = hash;
      digest = digest;
      padded = h2 ∙ ap ok padded_by;
      valid = the_padding pad valid;
    })
  where
    the_padding :
        {certificate : Bytes} {hash : Hash} (pad : Padding)
        → crypto.verify certificate signer.signature
            (signed_bytes body signer signer.signed_attrs)
            pad
            hash
          ≡ ok tt
        → crypto.verify certificate signer.signature
            (signed_bytes body signer signer.signed_attrs)
            pkcs1v15
            hash
          ≡ ok tt
    the_padding pkcs1v15 e = e

verify_signers-AreVerified :
    (crypto : Crypto) (body : Bytes) (signed : SignedData) (infos : List SignerInfo)
    (certificates : List Bytes)
    → verify_signers crypto (some body) signed infos ≡ ok certificates
    → AreVerified crypto body signed infos certificates
unfolding verify_signers
verify_signers-AreVerified crypto body signed [] certificates h =
    subst (AreVerified crypto body signed []) (ok_inj [] certificates h) tt
verify_signers-AreVerified crypto body signed (i ∷ infos) certificates h =
    let (c, one, later) =
      first_ok (verify_signer crypto (check_signature crypto (some body) i i.signed_attrs) signed i)
        _ _ h in
    let (cs, rest, same) = first_ok (verify_signers crypto (some body) signed infos) _ _ later in
    subst (AreVerified crypto body signed (i ∷ infos)) (ok_inj (c ∷ cs) certificates same) (
      verify_signer-IsVerified crypto body signed i c one,
      verify_signers-AreVerified crypto body signed infos cs rest,
    )

-- A message whose signers have all been verified, for a request.
pub record Accepted (crypto : Crypto) (request : Request) (signers : List Bytes) : Type 0 where
  pub header : String
  pub signature : Bytes
  pub info : ContentInfo
  pub sent : request.mdm_signature ≡ some header
  pub decoded : crypto.b64decode header ≡ ok signature
  pub loaded : crypto.load signature ≡ ok info
  pub verified : AreVerified crypto request.body info.content info.content.signer_infos signers

verify_cms-AreVerified :
    (crypto : Crypto) (signature b : Bytes) (signers : List Bytes) (data' : Option Bytes)
    → verify_cms crypto signature (some b) ≡ ok (signers, data')
    → (info : ContentInfo) × (crypto.load signature ≡ ok info)
      × AreVerified crypto b info.content info.content.signer_infos signers
      × (data' ≡ some b)
unfolding verify_cms
verify_cms-AreVerified crypto signature b signers data' accepted =
    let (i, loaded, later) = first_ok (crypto.load signature) _ _ accepted in
    let (t, kind, rest) = first_ok (assert (str_eq i.content_type "signed_data")) _ _ later in
    let (cs, verified, same) =
      first_ok (verify_signers crypto (some b) i.content i.content.signer_infos) _ _ rest in
    let equal = ok_inj (cs, some b) (signers, data') same in
    (
      i,
      loaded,
      subst (AreVerified crypto b i.content i.content.signer_infos)
          (ap (λ (p : List Bytes × Option Bytes). p.0) equal)
          (verify_signers-AreVerified crypto b i.content i.content.signer_infos cs verified),
      sym (ap (λ (p : List Bytes × Option Bytes). p.1) equal),
    )

-- The request is refused with nothing on `g`, or the view runs.
abbrev pub Guarded :
    {A : Type 0} → Crypto → Request → Exec Globals A → Globals → Result A × Globals → Type 0
Guarded crypto request view g outcome =
    ((e : Exn) × (outcome ≡ (err e, g)))
    ⊎ ((signers : List Bytes) × Accepted crypto request signers
        × (outcome ≡ view (with_signers (signers, some request.body) g)))

module _ {A : Type 0} (crypto : Crypto) (config : Config) (request : Request)
    (view : Exec Globals A) (g : Globals) (enforced : config.debug ≡ false) where
  verified-Guarded :
      (header : String) (signature : Bytes) (r : Result (List Bytes × Option Bytes))
      → request.mdm_signature ≡ some header
      → crypto.b64decode header ≡ ok signature
      → verify_cms crypto signature (some request.body) ≡ r
      → Guarded crypto request view g (unless_invalid config r view g)
  verified-Guarded header signature (ok (signers, signed)) sent decoded h =
      let (info, loaded, verified, same) =
        verify_cms-AreVerified crypto signature request.body signers signed h in
      inr (
        signers,
        record {
          header = header;
          signature = signature;
          info = info;
          sent = sent;
          decoded = decoded;
          loaded = loaded;
          verified = verified;
        },
        ap (λ d. view (with_signers (signers, d) g)) same,
      )
  verified-Guarded header signature (err invalid_signature) sent decoded h =
      rw enforced (inl (http 403, refl))
  verified-Guarded header signature (err e) sent decoded h = inl (e, refl)

  decoded-Guarded :
      (header : String) (r : Result Bytes)
      → request.mdm_signature ≡ some header
      → crypto.b64decode header ≡ r
      → Guarded crypto request view g (with_detached crypto config request r view g)
  decoded-Guarded header (ok signature) sent h = verified-Guarded header signature _ sent h refl
  decoded-Guarded header (err e) sent h = inl (e, refl)

  sent-Guarded :
      (o : Option String)
      → request.mdm_signature ≡ o
      → Guarded crypto request view g (with_signature crypto config request o view g)
  sent-Guarded none h = inl (type_error, refl)
  sent-Guarded (some header) h = decoded-Guarded header _ h refl

-- Outside tests and with DEBUG off, a request behind verify_mdm_signature ends with an exception
-- and nothing on `g`, or the request has a Mdm-Signature, the signature of each of its signers has
-- been verified, with the digest and the padding that the signer names, by a certificate of the
-- message that has the issuer and the serial number that the signer names, over the signed
-- attributes where the signer has some and over the body otherwise, and the view runs with those
-- certificates and the body on `g`.
pub verify_mdm_signature-Guarded :
    {A : Type 0} (crypto : Crypto) (config : Config) (request : Request) (view : Exec Globals A)
    (g : Globals)
    → config.testing ≡ false
    → config.debug ≡ false
    → Guarded crypto request view g (verify_mdm_signature crypto config request view g)
unfolding verify_mdm_signature
verify_mdm_signature-Guarded crypto config request view g tested enforced =
    rw tested (sent-Guarded crypto config request view g enforced request.mdm_signature refl)
