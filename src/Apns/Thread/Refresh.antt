-- ===== src/Apns/Thread/Refresh.antt =====
-- A round of the push thread as one pass over the device table.
use commandment.Base.{
  ◌≡◌, refl, sym, ap, ◌∙◌, Bool, true, false, not, ◌&&◌, ◌||◌, List, [], ◌∷◌, map, ltb,
  if◌then◌else◌, inl, inr, arith, keep, length, IsIn,
}
use commandment.Python.Values.{Value, sql_eq}
use commandment.Python.Exec.{Exn, Result, ok, err, ok_inj}
use commandment.Store.Rows.{Device, CommandRow, Db}
use commandment.Store.Session.{device_key}
use commandment.Store.Tables.{has_udid, IsSound}
use commandment.Apns.Push.{push_answer, PushResponse, Apns, after_push, after_push-key, pushed}
use commandment.Mdm.Queue.{Services}
use commandment.Apns.Thread.{is_null, outstanding_count}

-- The devices that a round pushes.
abbrev pub is_due : List CommandRow → Device → Bool
is_due rows d =
    (d.is_enrolled && ltb 0 (outstanding_count rows d))
    && not (is_null d.token || is_null d.push_magic)

unfoldable pub answered : Services → Result PushResponse → Device → Result Device
unfolding after_push
answered services (ok response) d = ok (pushed services.utcnow response (after_push response d))
answered services (err e) d = err e

abbrev pub refreshed : Services → Apns → List CommandRow → Device → Result Device
refreshed services apns rows d =
    if is_due rows d
    then answered services (push_answer apns d.push_magic d.token d.topic) d
    else ok d

abbrev pub refresh : Services → Apns → List CommandRow → List Device → Result (List Device)
refresh services apns rows [] = ok []
refresh services apns rows (d ∷ ds) =
    let rest = refresh services apns rows ds in
    elim (refreshed services apns rows d) [
      | ok d' ↦ elim rest [ ok ds' ↦ ok (d' ∷ ds') | err e ↦ err e ]
      | err e ↦ err e
    ]

module _ (services : Services) (apns : Apns) (rows : List CommandRow) where
  answered-key :
      (d d' : Device) (r : Result PushResponse)
      → answered services r d ≡ ok d'
      → (d'.id ≡ d.id) × (d'.udid ≡ d.udid)
  unfolding answered
  answered-key d d' (ok response) h =
      let same : pushed services.utcnow response (after_push response d) ≡ d' =
        ap (λ r. elim r [ ok x ↦ x | err c ↦ d ]) h in
      let (id, udid) = after_push-key response d in
      (sym (ap (λ (x : Device). x.id) same) ∙ id, sym (ap (λ (x : Device). x.udid) same) ∙ udid)
  answered-key d d' (err c) h = ground arith

  refreshed-key :
      (d d' : Device) → refreshed services apns rows d ≡ ok d' → (d'.id ≡ d.id) × (d'.udid ≡ d.udid)
  refreshed-key d d' h = chosen (is_due rows d) h
    where
      chosen :
          (b : Bool)
          → (if b
              then answered services (push_answer apns d.push_magic d.token d.topic) d
              else ok d)
            ≡ ok d'
          → (d'.id ≡ d.id) × (d'.udid ≡ d.udid)
      chosen true h = answered-key d d' _ h
      chosen false h =
          let same : d ≡ d' = ap (λ (r : Result Device). elim r [ ok x ↦ x | err c ↦ d ]) h in
          (sym (ap (λ (x : Device). x.id) same), sym (ap (λ (x : Device). x.udid) same))

  record Passed (r : Result Device) (rest : Result (List Device)) (ds : List Device) : Type 0 where
    pub head : Device
    pub tail : List Device
    pub head_is : r ≡ ok head
    pub tail_is : rest ≡ ok tail
    pub both : ds ≡ head ∷ tail

  passed :
      (r : Result Device) (rest : Result (List Device)) (ds : List Device)
      → (elim r [ ok d ↦ elim rest [ ok xs ↦ ok (d ∷ xs) | err e ↦ err e ] | err e ↦ err e ])
        ≡ ok ds
      → Passed r rest ds
  passed (ok d) (ok xs) ds h = record {
    head = d;
    tail = xs;
    head_is = refl;
    tail_is = refl;
    both = ap (λ (r : Result (List Device)). elim r [ ok ys ↦ ys | err e ↦ [] ]) (sym h);
  }
  passed (ok d) (err e) ds h = ground arith
  passed (err e) rest ds h = ground arith

  pub refresh-IsIn :
      (ds ds' : List Device) (d d' : Device)
      → refresh services apns rows ds ≡ ok ds'
      → IsIn d ds
      → refreshed services apns rows d ≡ ok d'
      → IsIn d' ds'
  refresh-IsIn [] ds' d d' h m e = elim m [ ]
  refresh-IsIn (x ∷ ds) ds' d d' h (inl same) e =
      let p = passed (refreshed services apns rows x) (refresh services apns rows ds) ds' h in
      rw p.both (inl (ok_inj _ _ (sym e ∙ ap (refreshed services apns rows) same ∙ p.head_is)))
  refresh-IsIn (x ∷ ds) ds' d d' h (inr m) e =
      let p = passed (refreshed services apns rows x) (refresh services apns rows ds) ds' h in
      rw p.both (inr (refresh-IsIn ds p.tail d d' p.tail_is m e))

  -- A push that raises ends the pass.
  pub refresh-raises :
      (ds : List Device) (d : Device) (e : Exn)
      → IsIn d ds
      → refreshed services apns rows d ≡ err e
      → (c : Exn) × (refresh services apns rows ds ≡ err c)
  refresh-raises [] d e m h = elim m [ ]
  refresh-raises (x ∷ ds) d e (inl same) h =
      (e, first (refreshed services apns rows x) (ap (refreshed services apns rows) (sym same) ∙ h))
    where
      first :
          (r : Result Device)
          → r ≡ err e
          → (elim r [
            | ok d' ↦ elim (refresh services apns rows ds) [ ok xs ↦ ok (d' ∷ xs) | err c ↦ err c ]
            | err c ↦ err c
          ])
            ≡ err e
      first (ok d') k = ground arith
      first (err c) k = ground arith
  refresh-raises (x ∷ ds) d e (inr m) h =
      later (refreshed services apns rows x) (refresh-raises ds d e m h)
    where
      later :
          (r : Result Device)
          → ((c : Exn) × (refresh services apns rows ds ≡ err c))
          → (c : Exn) × ((elim r [
            | ok d' ↦ elim (refresh services apns rows ds) [ ok xs ↦ ok (d' ∷ xs) | err b ↦ err b ]
            | err b ↦ err b
          ])
              ≡ err c)
      later (ok d') (c, k) = (c, rw k refl)
      later (err b) (c, k) = (b, refl)

  refresh-keys :
      (ds ds' : List Device)
      → refresh services apns rows ds ≡ ok ds'
      → map device_key ds' ≡ map device_key ds
  refresh-keys [] ds' h = ap (map device_key) (sym (ok_inj _ _ h))
  refresh-keys (x ∷ ds) ds' h =
      let p = passed (refreshed services apns rows x) (refresh services apns rows ds) ds' h in
      rw (p.both, (refreshed-key x p.head p.head_is).0, refresh-keys ds p.tail p.tail_is) refl

  refresh-udids :
      (u : Value) (ds ds' : List Device)
      → refresh services apns rows ds ≡ ok ds'
      → length (keep (has_udid u) ds') ≡ length (keep (has_udid u) ds)
  refresh-udids u [] ds' h = ap (λ xs. length (keep (has_udid u) xs)) (sym (ok_inj _ _ h))
  refresh-udids u (x ∷ ds) ds' h =
      let p = passed (refreshed services apns rows x) (refresh services apns rows ds) ds' h in
      let udid = ap (λ v. sql_eq v u) (refreshed-key x p.head p.head_is).1 in
      rw p.both (ground (arith, udid, refresh-udids u ds p.tail p.tail_is))

  pub refresh-IsSound :
      (db : Db) (ds : List Device)
      → refresh services apns rows db.devices ≡ ok ds
      → IsSound db
      → IsSound (record db { devices = ds })
  refresh-IsSound db ds h sound = record {
    device_keys = rw (refresh-keys db.devices ds h) sound.device_keys;
    device_fresh = rw (refresh-keys db.devices ds h) sound.device_fresh;
    udids = λ u. rw (refresh-udids u db.devices ds h) (sound.udids u);
    command_keys = sound.command_keys;
    command_fresh = sound.command_fresh;
  }
