-- ===== src/Apns/Thread/Single.antt =====
-- The push of one device in a round of the push thread, on explicit tables.
use commandment.Base.{
  ℕ, ◌≡◌, refl, sym, ap, subst, ◌∙◌, true, false, ◌||◌, List, ◌∷◌, ◌++◌, map, arith,
}
use commandment.Python.Exec.{Exn, Result, ok, err, Exec, lift, pure, bind-ok, bind-err, ◌>>◌}
use commandment.Store.Rows.{Device, Db}
use commandment.Store.Session.{Session, save, device_key, put_device}
use commandment.Store.Keys.{Distinct, Distinct-save, save-middle}
use commandment.Apns.Push.{
  push_answer, PushResponse, Apns, after_push, after_push-key, pushed, push_to_device,
}
use commandment.Mdm.Queue.{Services}
use commandment.Apns.Thread.{is_null, push_outstanding}
use commandment.Apns.Thread.Refresh.{answered}

abbrev pub with_devices : Db → Db → ℕ → List Device → Session
with_devices stored db draws ds = record {
  stored = stored;
  working = record db { devices = ds };
  draws = draws;
}

module _ (services : Services) (apns : Apns) (stored db : Db) (draws : ℕ) where
  abbrev at : List Device → Session
  at = with_devices stored db draws

  push_outstanding-ok :
      (d : Device) (response : PushResponse) (pre post : List Device)
      → Distinct (map device_key (pre ++ d ∷ post))
      → is_null d.token || is_null d.push_magic ≡ false
      → push_answer apns d.push_magic d.token d.topic ≡ ok response
      → push_outstanding services apns d (at (pre ++ d ∷ post))
        ≡ (ok tt, at (pre ++ pushed services.utcnow response (after_push response d) ∷ post))
  unfolding push_outstanding push_to_device put_device
  push_outstanding-ok d response pre post k present a = rw present (
      bind-ok (push_to_device apns d) record_push (at (pre ++ d ∷ post)) (at (pre ++ d' ∷ post))
        (response, d')
        (bind-ok (lift (push_answer apns d.push_magic d.token d.topic)) store (at (pre ++ d ∷ post))
            (at (pre ++ d ∷ post)) response (ap (λ r. (r, at (pre ++ d ∷ post))) a)
          ∙ ap (λ ds. (ok (response, d'), at ds)) (save-middle device_key d' d pre post key k))
      ∙ ap (λ ds. (ok tt, at ds))
          (save-middle device_key (pushed services.utcnow response d') d' pre post refl (
            subst (λ ds. Distinct (map device_key ds)) (save-middle device_key d' d pre post key k)
              (Distinct-save device_key d' _ k))))
    where
      d' : Device
      d' = after_push response d

      key : d'.id ≡ d.id
      key = (after_push-key response d).0

      record_push : PushResponse × Device → Exec Session (Unit {0})
      record_push (r, e) = put_device (pushed services.utcnow r e)

      store : PushResponse → Exec Session (PushResponse × Device)
      store r s = (
        ok (r, after_push r d),
        record s {
          working = record s.working {
            devices = save device_key (after_push r d) s.working.devices;
          };
        },
      )

  pub push_outstanding-err :
      (d : Device) (e : Exn) (s : Session)
      → is_null d.token || is_null d.push_magic ≡ false
      → push_answer apns d.push_magic d.token d.topic ≡ err e
      → push_outstanding services apns d s ≡ (err e, s)
  unfolding push_outstanding push_to_device
  push_outstanding-err d e s present a = rw present (
      bind-err (push_to_device apns d) (λ (r, d'). put_device (pushed services.utcnow r d')) s s e
        (bind-err (lift (push_answer apns d.push_magic d.token d.topic))
          (λ r. put_device (after_push r d) >> pure (r, after_push r d)) s s e
          (ap (λ r. (r, s)) a)))

  pub push_outstanding-skipped :
      (d : Device) (s : Session)
      → is_null d.token || is_null d.push_magic ≡ true
      → push_outstanding services apns d s ≡ (ok tt, s)
  unfolding push_outstanding
  push_outstanding-skipped d s absent = rw absent refl

  pub push_outstanding-answered :
      (ds pre : List Device) (d d' : Device) (r : Result PushResponse)
      → push_answer apns d.push_magic d.token d.topic ≡ r
      → Distinct (map device_key (pre ++ d ∷ ds))
      → is_null d.token || is_null d.push_magic ≡ false
      → answered services r d ≡ ok d'
      → (push_outstanding services apns d (at (pre ++ d ∷ ds)) ≡ (ok tt, at (pre ++ d' ∷ ds)))
        × (d'.id ≡ d.id)
  unfolding answered
  push_outstanding-answered ds pre d d' (ok response) a k present e =
      let same : pushed services.utcnow response (after_push response d) ≡ d' =
        ap (λ r. elim r [ ok x ↦ x | err c ↦ d ]) e in
      (
        push_outstanding-ok d response pre ds k present a
            ∙ ap (λ x. (ok tt, at (pre ++ x ∷ ds))) same,
        sym (ap (λ (x : Device). x.id) same) ∙ (after_push-key response d).0,
      )
  push_outstanding-answered ds pre d d' (err c) a k present e = cc

  pub answered-err :
      (d : Device) (e : Exn) (r : Result PushResponse) → answered services r d ≡ err e → r ≡ err e
  unfolding answered
  answered-err d e (ok response) h = ground arith
  answered-err d e (err c) h = ap (λ r. elim r [ ok x ↦ err c | err c' ↦ err c' ]) h
