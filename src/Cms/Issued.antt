-- ===== src/Cms/Issued.antt =====
-- The certificate and the algorithms that a signer names, as commandment/cms/__init__.py finds them.
use commandment.Base.{
  ◌≡◌, sym, ap, inl, inr, String, true, ◌∙◌, IsIn, eq_iff, arith, if◌then◌else◌, Bool-cases, none,
  some, List, [], ◌∷◌, str_eq,
}
use commandment.Cms.Signers.{
  Certificate, CertificateChoice, SignerIdentifier, is_issued, first_issued, Hash, Padding,
  cryptography_hash_function, cryptography_pad_function, certificate_by_signer_identifier,
}

-- The certificate that a signer names, among those of the message.
pub record IsIssued (sid : SignerIdentifier) (certificates : List CertificateChoice)
    (c : Certificate) : Type 0 where
  pub kind : sid.name ≡ "issuer_and_serial_number"
  pub serial_number : c.serial_number ≡ sid.serial_number
  pub issuer : c.issuer ≡ sid.issuer
  pub sent : IsIn (record { name = "certificate"; chosen = c }) certificates

abbrev pub digest_name : Hash → String
digest_name Hash.sha1 = "sha1"
digest_name Hash.sha256 = "sha256"
digest_name Hash.sha512 = "sha512"

some_unique : {A : Type 0} (a b : A) → some a ≡ some b → a ≡ b
some_unique a b h = ap (λ o. elim o [ none ↦ a | some x ↦ x ]) h

named-IsIn :
    (c : CertificateChoice) (cs : List CertificateChoice) (k : Certificate)
    → c.name ≡ "certificate"
    → c.chosen ≡ k
    → IsIn (record { name = "certificate"; chosen = k }) (c ∷ cs)
named-IsIn c cs k name chosen = inl (sym (λ i. record { name = name i; chosen = chosen i }))

record Fits (sid : SignerIdentifier) (c : CertificateChoice) : Type 0 where
  pub kind : c.name ≡ "certificate"
  pub serial_number : c.chosen.serial_number ≡ sid.serial_number
  pub issuer : c.chosen.issuer ≡ sid.issuer

is_issued-Fits :
    (sid : SignerIdentifier) (c : CertificateChoice) → is_issued sid c ≡ true → Fits sid c
unfolding is_issued
is_issued-Fits sid c h = record {
  kind = ground (arith, h, eq_iff c.name "certificate");
  serial_number = ground (arith, h);
  issuer = ground (arith, h, eq_iff c.chosen.issuer sid.issuer);
}

first_issued-IsIssued :
    (sid : SignerIdentifier) (cs : List CertificateChoice) (k : Certificate)
    → sid.name ≡ "issuer_and_serial_number"
    → first_issued sid cs ≡ some k
    → IsIssued sid cs k
unfolding first_issued
first_issued-IsIssued sid [] k kind h = ground arith
first_issued-IsIssued sid (c ∷ cs) k kind h = elim (Bool-cases (is_issued sid c)) [
  | inl chosen ↦
      let fits = is_issued-Fits sid c chosen in
      let same : c.chosen ≡ k =
        some_unique c.chosen k
          (sym (ap (λ b. if b then some c.chosen else first_issued sid cs) chosen) ∙ h) in
      record {
        kind = kind;
        serial_number = ap (λ (x : Certificate). x.serial_number) (sym same) ∙ fits.serial_number;
        issuer = ap (λ (x : Certificate). x.issuer) (sym same) ∙ fits.issuer;
        sent = named-IsIn c cs k fits.kind same;
      }
  | inr other ↦
      let later =
        first_issued-IsIssued sid cs k kind
          (sym (ap (λ b. if b then some c.chosen else first_issued sid cs) other) ∙ h) in
      record {
        kind = kind;
        serial_number = later.serial_number;
        issuer = later.issuer;
        sent = inr later.sent;
      }
]

pub found-IsIssued :
    (certificates : List CertificateChoice) (sid : SignerIdentifier) (k : Certificate)
    → certificate_by_signer_identifier certificates sid ≡ some k
    → IsIssued sid certificates k
unfolding certificate_by_signer_identifier
found-IsIssued certificates sid k h =
    elim (Bool-cases (str_eq sid.name "issuer_and_serial_number")) [
      | inl named ↦
          first_issued-IsIssued sid certificates k
            (ground (arith, named, eq_iff sid.name "issuer_and_serial_number"))
            (sym (ap (λ b. if b then first_issued sid certificates else none) named) ∙ h)
      | inr other ↦ absurd (ground (arith, h, other))
    ]

pub hash_function-digest :
    (name : String) (hash : Hash)
    → cryptography_hash_function name ≡ some hash
    → name ≡ digest_name hash
unfolding cryptography_hash_function
hash_function-digest name hash h =
    ground (arith, h, eq_iff name "sha1", eq_iff name "sha256", eq_iff name "sha512")

pub pad_function-padded :
    (name : String) (pad : Padding)
    → cryptography_pad_function name ≡ some pad
    → name ≡ "rsassa_pkcs1v15"
unfolding cryptography_pad_function
pad_function-padded name pad h = ground (arith, h, eq_iff name "rsassa_pkcs1v15")
