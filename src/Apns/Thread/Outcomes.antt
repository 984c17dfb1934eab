-- ===== src/Apns/Thread/Outcomes.antt =====
-- What the rounds of the push thread leave in the tables, and how the thread ends.
use commandment.Base.{
  ◌≡◌, inl, inr, sym, Bool, false, if◌then◌else◌, refl, ap, ◌∙◌, true, List, [], ◌∷◌, map, IsIn,
  arith,
}
use commandment.Python.Values.{Value}
use commandment.Python.Exec.{
  Result, ok, err, Exn, ssl_error, runtime_error, Result-cases, err_unique,
}
use commandment.Store.Rows.{Device, Db}
use commandment.Store.Session.{device_key}
use commandment.Store.Keys.{Distinct}
use commandment.Store.Tables.{IsSound}
use commandment.Apns.Push.{push_answer, Apns}
use commandment.Mdm.Queue.{Services}
use commandment.Apns.Thread.{push_round, ThreadEnd, push_thread_callback}
use commandment.Apns.Thread.Refresh.{
  is_due, answered, refreshed, refresh, refresh-raises, refresh-IsSound,
}
use commandment.Apns.Thread.Rounds.{push_round-refresh}

abbrev raise_unit : Exn → Result (Unit {0})
raise_unit e = err e

-- The tables behind a round, by how the pass ends.
module _ (services : Services) (apns : Apns) (db : Db)
    (keys : Distinct (map device_key db.devices)) where
  push_round-ok :
      (ds : List Device)
      → refresh services apns db.commands db.devices ≡ ok ds
      → push_round services apns db ≡ (ok tt, record db { devices = ds })
  push_round-ok ds h = push_round-refresh services apns db keys ∙ rw h refl

  push_round-err :
      (e : Exn)
      → refresh services apns db.commands db.devices ≡ err e
      → push_round services apns db ≡ (err e, db)
  push_round-err e h = push_round-refresh services apns db keys ∙ rw h refl

pub push_round-IsSound :
    (services : Services) (apns : Apns) (db : Db)
    → IsSound db
    → IsSound (push_round services apns db).1
push_round-IsSound services apns db sound =
    elim (Result-cases (refresh services apns db.commands db.devices)) [
      | inl (ds, h) ↦
          rw (push_round-ok services apns db sound.device_keys ds h)
            (refresh-IsSound services apns db.commands db ds h sound)
      | inr (e, h) ↦ rw (push_round-err services apns db sound.device_keys e h) sound
    ]

answered_err : (services : Services) (d : Device) (c : Exn) → answered services (err c) d ≡ err c
unfolding answered
answered_err services d c = refl

-- Where every push raises the same, so does the pass if it raises.
refresh-unanswered :
    (services : Services) (apns : Apns) (db : Db) (ds : List Device) (raises e : Exn)
    → ((d : Device) → push_answer apns d.push_magic d.token d.topic ≡ err raises)
    → refresh services apns db.commands ds ≡ err e
    → e ≡ raises
refresh-unanswered services apns db [] raises e every h = ground arith
refresh-unanswered services apns db (d ∷ ds) raises e every h =
    ends (refreshed services apns db.commands d) (refresh services apns db.commands ds)
      (raised (is_due db.commands d)) (λ c. refresh-unanswered services apns db ds raises c every) h
  where
    raised :
        (b : Bool) (c : Exn)
        → (if b then answered services (push_answer apns d.push_magic d.token d.topic) d else ok d)
          ≡ err c
        → c ≡ raises
    raised true c k =
        err_unique _ c raises k
          (ap (λ r. answered services r d) (every d) ∙ answered_err services d raises)
    raised false c k = ground arith

    ends :
        (r : Result Device) (rest : Result (List Device))
        → ((c : Exn) → r ≡ err c → c ≡ raises)
        → ((c : Exn) → rest ≡ err c → c ≡ raises)
        → (elim r [ ok x ↦ elim rest [ ok xs ↦ ok (x ∷ xs) | err c ↦ err c ] | err c ↦ err c ])
          ≡ err e
        → e ≡ raises
    ends (err c) rest f g k = sym (err_unique _ c e refl k) ∙ f c refl
    ends (ok x) (err c) f g k = g e k
    ends (ok x) (ok xs) f g k = ground arith

no_answer : (magic token topic : Value) → push_answer (ok tt) magic token topic ≡ err runtime_error
unfolding push_answer
no_answer magic token topic = refl

-- Where the tables are sound, some device is to be pushed and the push certificate can be read,
-- the push thread ends at that round with a RuntimeError and the tables as they were, whatever
-- rounds would have followed.
pub push_thread_callback-dies :
    (services : Services) (rounds : List (Services × Apns)) (db : Db) (d : Device)
    → IsSound db
    → IsIn d db.devices
    → is_due db.commands d ≡ true
    → push_thread_callback ((services, ok tt) ∷ rounds) db ≡ (ThreadEnd.died runtime_error, db)
unfolding push_thread_callback
push_thread_callback-dies services rounds db d sound m due =
    let every = λ (x : Device). no_answer x.push_magic x.token x.topic in
    let (c, h) = refresh-raises services (ok tt) db.commands db.devices d runtime_error m (
      rw due (ap (λ r. answered services r d) (every d) ∙ answered_err services d runtime_error)) in
    let same = refresh-unanswered services (ok tt) db db.devices runtime_error c every h in
    ap after
      (push_round-err services (ok tt) db sound.device_keys c h ∙ ap (λ c. (raise_unit c, db)) same)
  where
    after : Result (Unit {0}) × Db → ThreadEnd × Db
    after (r, db') = elim r [
      | ok _ ↦ push_thread_callback rounds db'
      | err ssl_error ↦ (ThreadEnd.stopped, db')
      | err e ↦ (ThreadEnd.died e, db')
    ]
