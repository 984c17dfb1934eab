-- ===== src/Mdm/Commands/Rehydrate.antt =====
-- A command that is stored by its request type, parameters and UUID comes back as it was.
use commandment.Base.{ℕ, String, ◌≡◌, refl, subst, ◌∙◌, false, List, arith}
use commandment.Python.Values.{Value, Fields, end, field, contains}
use commandment.Python.Dict.{IsDict, update-end}
use commandment.Python.Exec.{Result, ok, err}
use commandment.Mdm.Commands.{
  CommandClass, device_information, request_type, installed_application_list, install_application,
  settings, settings_attrs, settings_of, has_bound_name, Command, Codec, init_attrs, construct,
  install_profile_of, install_application_of,
}
use commandment.Mdm.Commands.Registry.{new_request_type-request_type, new_request_type}

-- The ways in which the source makes a command.
pub data Made : Command → Type 0 where
  from_values :
      (c : CommandClass) (uuid : String) (kwargs : Fields) (cmd : Command)
      → IsDict kwargs
      → construct c uuid kwargs ≡ ok cmd
      → Made cmd
  from_profile :
      (codec : Codec) (uuid : String) (bytes : List ℕ) → Made (install_profile_of codec uuid bytes)
  from_application :
      (uuid : String) (itunes_store_id : Value) → Made (install_application_of uuid itunes_store_id)

settings_again :
    (r : Result Value) (attrs : Fields)
    → settings_attrs r ≡ ok attrs
    → settings_attrs (settings_of attrs) ≡ ok attrs
unfolding settings_of
settings_again (err e) attrs h = cc
settings_again (ok xs) attrs h =
    let same : field "settings" xs end ≡ attrs = cc in
    subst (λ a. settings_attrs (settings_of a) ≡ ok a) same refl

-- The parameters that a constructor leaves are accepted by it and left alone.
init_attrs_again :
    (c : CommandClass) (kwargs attrs : Fields)
    → IsDict kwargs
    → init_attrs c kwargs ≡ ok attrs
    → init_attrs c attrs ≡ ok attrs
unfolding init_attrs
init_attrs_again device_information kwargs attrs d h = refl
init_attrs_again installed_application_list kwargs attrs d h = ground (arith, update-end kwargs)
init_attrs_again install_application kwargs attrs d h = ground (arith, update-end kwargs)
init_attrs_again settings kwargs attrs d h = settings_again (settings_of kwargs) attrs h
init_attrs_again _ kwargs attrs d h = ground arith

-- Nor do they hold a name that the call has bound.
init_attrs-unbound :
    (c : CommandClass) (kwargs attrs : Fields)
    → IsDict kwargs
    → init_attrs c kwargs ≡ ok attrs
    → has_bound_name kwargs ≡ false
    → has_bound_name attrs ≡ false
unfolding init_attrs contains
init_attrs-unbound device_information kwargs attrs d h u = ground arith
init_attrs-unbound installed_application_list kwargs attrs d h u = ground (arith, update-end kwargs)
init_attrs-unbound install_application kwargs attrs d h u = ground (arith, update-end kwargs)
init_attrs-unbound settings kwargs attrs d h u = settings-unbound (settings_of kwargs) attrs h
  where
    settings-unbound :
        (r : Result Value) (attrs : Fields)
        → settings_attrs r ≡ ok attrs
        → has_bound_name attrs ≡ false
    settings-unbound (err e) attrs h = cc
    settings-unbound (ok xs) attrs h =
        let same : field "settings" xs end ≡ attrs = cc in
        subst (λ a. has_bound_name a ≡ false) same refl
init_attrs-unbound _ kwargs attrs d h u = ground arith

construct_again :
    (c : CommandClass) (uuid : String) (kwargs : Fields) (cmd : Command)
    → IsDict kwargs
    → construct c uuid kwargs ≡ ok cmd
    → construct cmd.class cmd.uuid cmd.attrs ≡ ok cmd
unfolding construct
construct_again c uuid kwargs cmd d h =
    ground (arith, init_attrs_again c kwargs cmd.attrs d, init_attrs-unbound c kwargs cmd.attrs d)

construct-Made : (cmd : Command) → Made cmd → construct cmd.class cmd.uuid cmd.attrs ≡ ok cmd
unfolding construct install_profile_of install_application_of init_attrs contains
construct-Made cmd (from_values c uuid kwargs _ d h) = construct_again c uuid kwargs cmd d h
construct-Made _ (from_profile codec uuid bytes) = refl
construct-Made _ (from_application uuid n) = refl

-- A command that its class has made from keyword values, from a profile or from an application
-- comes back the same from its request type, its parameters and its UUID by new_request_type.
pub new_request_type_roundtrip :
    (cmd : Command)
    → Made cmd
    → new_request_type (request_type cmd.class) cmd.attrs cmd.uuid ≡ ok cmd
new_request_type_roundtrip cmd m =
    new_request_type-request_type cmd.class cmd.attrs cmd.uuid ∙ construct-Made cmd m
