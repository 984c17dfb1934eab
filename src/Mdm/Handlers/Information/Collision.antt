-- ===== src/Mdm/Handlers/Information/Collision.antt =====
-- A device that reports the UDID of another one.
use commandment.Base.{
  ℕ, String, ◌≡◌, ◌≢◌, refl, sym, ap, ◌∙◌, Bool, true, none, some, List, [], ◌∷◌, arith, keep, IsIn,
  Bool-cases, inl, inr, eq_refl,
}
use commandment.Python.Values.{Value, text, Fields, get, get_or}
use commandment.Python.Dict.{IsDict}
use commandment.Python.Exec.{ok, err, multiple_results_found}
use commandment.Store.Rows.{Device, Db}
use commandment.Store.Session.{Session, begin, one, save, device_key}
use commandment.Store.Keys.{IsIn-save}
use commandment.Mdm.Queue.{Services}
use commandment.Mdm.Endpoint.{Handle, is_device, find_device, mdm, serve}
use commandment.Mdm.Handlers.Information.{
  LoadInformation, set_attributes, set_attributes-id, set_attributes-udid, ack_device_information,
}

IsIn-keep :
    {A : Type 0} (p : A → Bool) (x : A) (xs : List A) → IsIn x xs → p x ≡ true → IsIn x (keep p xs)
IsIn-keep p x [] m e = elim m [ ]
IsIn-keep p x (y ∷ ys) (inl same) e = rw (ap p (sym same) ∙ e) (inl same)
IsIn-keep p x (y ∷ ys) (inr m) e = elim (Bool-cases (p y)) [
  | inl kept ↦ rw kept (inr (IsIn-keep p x ys m e))
  | inr dropped ↦ rw dropped (IsIn-keep p x ys m e)
]

-- A save leaves the rows with other keys.
IsIn-save_other :
    {A : Type 0} (key : A → ℕ) (r x : A) (xs : List A)
    → key x ≢ key r
    → IsIn x xs
    → IsIn x (save key r xs)
unfolding save
IsIn-save_other key r x [] n m = elim m [ ]
IsIn-save_other key r x (y ∷ ys) n (inl same) = inl (ground (arith, ap key same))
IsIn-save_other key r x (y ∷ ys) n (inr m) = inr (IsIn-save_other key r x ys n m)

two_rows :
    {A : Type 0} (x y : A) (kept : List A)
    → x ≢ y
    → IsIn x kept
    → IsIn y kept
    → one kept ≡ err multiple_results_found
unfolding one
two_rows x y [] n m k = elim m [ ]
two_rows x y (z ∷ []) n (inl e) (inl f) = absurd (n (e ∙ sym f))
two_rows x y (z ∷ []) n (inl e) (inr k) = elim k [ ]
two_rows x y (z ∷ []) n (inr m) k = elim m [ ]
two_rows x y (z ∷ w ∷ rest) n m k = refl

-- A request under a UDID that two rows have is refused.
serve_ambiguous :
    (services : Services) (handle : Handle) (message : Fields) (udid : Value) (db : Db)
    → get "UDID" message ≡ some udid
    → one (keep (is_device udid) db.devices) ≡ err multiple_results_found
    → serve services handle (some message) db ≡ (err multiple_results_found, db)
unfolding serve mdm find_device begin
serve_ambiguous services handle message udid db of twice = rw (of, twice) refl

ack_device_information-stored :
    (load : LoadInformation) (d : Device) (response attributes : Fields) (s : Session)
    → load response ≡ ok attributes
    → (ack_device_information load d response s).1.stored.devices
      ≡ save device_key (set_attributes attributes d) s.working.devices
unfolding ack_device_information
ack_device_information-stored load d response attributes s loaded = rw loaded refl

module _ (d e : Device) (attributes : Fields) (u : String) (devices : List Device)
    (named : IsDict attributes) (reported : get "udid" attributes ≡ some (text u))
    (row : IsIn d devices) (another : IsIn e devices) (taken : e.udid ≡ text u)
    (differ : e.id ≢ d.id) where
  renamed : (set_attributes attributes d).udid ≡ text u
  unfolding get_or
  renamed =
      set_attributes-udid attributes d named
      ∙ ap (λ o. elim o [ none ↦ d.udid | some v ↦ v ]) reported

  apart : e ≢ set_attributes attributes d
  apart same = differ (ap device_key same ∙ set_attributes-id attributes d)

  still : IsIn e (save device_key (set_attributes attributes d) devices)
  still =
      IsIn-save_other device_key (set_attributes attributes d) e devices
        (λ same. differ (same ∙ set_attributes-id attributes d)) another

  is_device_of : (x : Device) → x.udid ≡ text u → is_device (text u) x ≡ true
  unfolding is_device
  is_device_of x h = rw h (eq_refl u)

  twice :
      one (keep (is_device (text u)) (save device_key (set_attributes attributes d) devices))
      ≡ err multiple_results_found
  twice =
      two_rows e (set_attributes attributes d) _ apart
        (IsIn-keep _ e _ still (is_device_of e taken))
        (IsIn-keep _ (set_attributes attributes d) _
          (IsIn-save device_key d (set_attributes attributes d) devices
            (set_attributes-id attributes d) row)
          (is_device_of _ renamed))

-- Where a device row is in the table, another row with another key has the UDID u, and the
-- attributes loaded from the response of the first give u as its UDID, the tables that
-- ack_device_information stores refuse every message to /mdm under u with MultipleResultsFound and
-- stay as they are.
pub ack_device_information-collision :
    (services : Services) (handle : Handle) (load : LoadInformation) (d e : Device)
    (response attributes message : Fields) (u : String) (s : Session)
    → load response ≡ ok attributes
    → IsDict attributes
    → get "udid" attributes ≡ some (text u)
    → IsIn d s.working.devices
    → IsIn e s.working.devices
    → e.udid ≡ text u
    → e.id ≢ d.id
    → get "UDID" message ≡ some (text u)
    → let db = (ack_device_information load d response s).1.stored in
      serve services handle (some message) db ≡ (err multiple_results_found, db)
ack_device_information-collision services handle load d e response attributes message u s loaded
      named reported row another taken differ of =
    serve_ambiguous services handle message (text u) _ of (
      ap (λ devices. one (keep (is_device (text u)) devices))
        (ack_device_information-stored load d response attributes s loaded)
      ∙ twice d e attributes u s.working.devices named reported row another taken differ)
