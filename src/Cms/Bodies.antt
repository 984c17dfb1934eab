-- ===== src/Cms/Bodies.antt =====
-- What a detached signature says of the body it comes with.
use mathlib.Core.Path.{fun_ext}
use commandment.Base.{
  ◌≡◌, refl, sym, ap, subst, ◌∙◌, String, false, Option, some, List, [], ◌∷◌, All, str_eq,
}
use commandment.Python.Exec.{ok, Exec, ok_inj}
use commandment.Python.Fallible.{◌>>=◌, assert, first_ok}
use commandment.Cms.Signers.{
  Bytes, SignedAttr, SignerInfo, SignedData, ContentInfo, Crypto, check_signature, verify_signer,
  verify_signers, verify_cms,
}
use commandment.Cms.Decorators.{Request, Config, Globals, with_signers, verify_mdm_signature}

abbrev pub HasAttrs : List SignedAttr → Type 0
HasAttrs [] = ⊥
HasAttrs (a ∷ attrs) = Unit

check_signature-attrs :
    (crypto : Crypto) (b b' : Option Bytes) (signer : SignerInfo) (attrs : List SignedAttr)
    → HasAttrs attrs
    → check_signature crypto b signer attrs ≡ check_signature crypto b' signer attrs
unfolding check_signature
check_signature-attrs crypto b b' signer [] h = elim h [ ]
check_signature-attrs crypto b b' signer (a ∷ attrs) h =
    fun_ext λ certificate. fun_ext λ pad. fun_ext λ hash. refl

verify_signers-attrs :
    (crypto : Crypto) (b b' : Option Bytes) (signed : SignedData) (infos : List SignerInfo)
    → All (λ i. HasAttrs i.signed_attrs) infos
    → verify_signers crypto b signed infos ≡ verify_signers crypto b' signed infos
unfolding verify_signers
verify_signers-attrs crypto b b' signed [] h = refl
verify_signers-attrs crypto b b' signed (i ∷ infos) (h, hs) =
    ap
      (λ check. verify_signer crypto check signed i >>= λ c.
        verify_signers crypto b signed infos >>= λ cs. ok (c ∷ cs))
      (check_signature-attrs crypto b b' i i.signed_attrs h)
    ∙ ap
        (λ rest. verify_signer crypto (check_signature crypto b' i i.signed_attrs) signed i >>= λ c.
          rest >>= λ cs. ok (c ∷ cs))
        (verify_signers-attrs crypto b b' signed infos hs)

-- The signers that one body is accepted from, it and any other one are.
verify_cms-any_body :
    (crypto : Crypto) (signature b body : Bytes) (info : ContentInfo) (signers : List Bytes)
    → crypto.load signature ≡ ok info
    → All (λ i. HasAttrs i.signed_attrs) info.content.signer_infos
    → verify_cms crypto signature (some b) ≡ ok (signers, some b)
    → verify_cms crypto signature (some body) ≡ ok (signers, some body)
unfolding verify_cms
verify_cms-any_body crypto signature b body info signers loaded attrs accepted =
    let (i, loaded', later) = first_ok (crypto.load signature) _ _ accepted in
    let (t, kind, rest) = first_ok (assert (str_eq i.content_type "signed_data")) _ _ later in
    let (cs, verified, same) =
      first_ok (verify_signers crypto (some b) i.content i.content.signer_infos) _ _ rest in
    let shared =
      subst (λ j. All (λ i. HasAttrs i.signed_attrs) j.content.signer_infos)
        (ok_inj info i (sym loaded ∙ loaded')) attrs in
    let again =
      sym (verify_signers-attrs crypto (some b) (some body) i.content i.content.signer_infos shared)
      ∙ verified in
    rw (loaded', kind, again)
      (ap (λ (p : List Bytes × Option Bytes). ok (p.0, some body))
        (ok_inj (cs, some b) (signers, some b) same))

-- Outside tests, where the signature of a request has been accepted for its body and each of its
-- signers has signed attributes, a request with the same signature and any other body runs the
-- view too, with the same certificates and that body on `g`.
pub verify_mdm_signature-any_body :
    {A : Type 0} (crypto : Crypto) (config : Config) (request : Request) (view : Exec Globals A)
    (header : String) (signature body : Bytes) (info : ContentInfo) (signers : List Bytes)
    (g : Globals)
    → config.testing ≡ false
    → request.mdm_signature ≡ some header
    → crypto.b64decode header ≡ ok signature
    → crypto.load signature ≡ ok info
    → All (λ i. HasAttrs i.signed_attrs) info.content.signer_infos
    → verify_cms crypto signature (some request.body) ≡ ok (signers, some request.body)
    → verify_mdm_signature crypto config (record request { body = body }) view g
      ≡ view (with_signers (signers, some body) g)
unfolding verify_mdm_signature
verify_mdm_signature-any_body crypto config request view header signature body info signers g
      enforced signed decoded loaded attrs accepted =
    rw
      (
        enforced,
        signed,
        decoded,
        verify_cms-any_body crypto signature request.body body info signers loaded attrs accepted,
      )
      refl
