-- ===== src/Apns/Thread/Rounds.antt =====
-- A round of the push thread as one pass over the device table.
use commandment.Base.{
  ℕ, ◌≡◌, refl, sym, ap, subst, ◌∙◌, Bool, true, not, ◌&&◌, ◌||◌, List, [], ◌∷◌, ◌++◌, map, ltb,
  if◌then◌else◌, Bool-cases, inl, inr, arith,
}
use mathlib.Core.List.{append_assoc}
use commandment.Python.Exec.{Exn, Result, ok, err, Exec, bind-ok, bind-err, ◌>>◌}
use commandment.Store.Rows.{Device, CommandRow, Db}
use commandment.Store.Session.{Session, begin, commit, device_key}
use commandment.Store.Keys.{Distinct, Distinct-save, save-middle}
use commandment.Apns.Push.{push_answer, Apns}
use commandment.Mdm.Queue.{Services}
use commandment.Apns.Thread.{
  is_null, outstanding_count, outstanding, push_outstanding, push_all, push_pending, push_round,
}
use commandment.Apns.Thread.Refresh.{answered, refresh}
use commandment.Apns.Thread.Single.{
  with_devices, push_outstanding-err, push_outstanding-skipped, push_outstanding-answered,
  answered-err,
}

module _ (services : Services) (apns : Apns) (rows : List CommandRow) (stored db : Db)
    (draws : ℕ) where
  abbrev at : List Device → Session
  at = with_devices stored db draws

  abbrev Refreshed : List Device → Result (List Device) → Result (Unit {0}) × Session → Type 0
  Refreshed pre (ok ds) x = x ≡ (ok tt, at (pre ++ ds))
  Refreshed pre (err e) x = (x.0 ≡ err e) × (x.1.stored ≡ stored)

  Refreshed-cons :
      (pre : List Device) (d : Device) (rest : Result (List Device))
      (x : Result (Unit {0}) × Session)
      → Refreshed (pre ++ d ∷ []) rest x
      → Refreshed pre (elim rest [ ok ds ↦ ok (d ∷ ds) | err e ↦ err e ]) x
  Refreshed-cons pre d (ok ds) x h = h ∙ ap (λ ds. (ok tt, at ds)) (append_assoc pre (d ∷ []) ds)
  Refreshed-cons pre d (err e) x h = h

  abbrev Refreshes : List Device → Type 0
  Refreshes todo =
      (pre : List Device)
      → Distinct (map device_key (pre ++ todo))
      → Refreshed pre (refresh services apns rows todo)
          (push_all services apns (outstanding rows todo) (at (pre ++ todo)))

  advance :
      (ds pre : List Device) (d : Device)
      → Refreshes ds
      → Distinct (map device_key (pre ++ d ∷ ds))
      → Refreshed pre
          (elim (refresh services apns rows ds) [ ok rest ↦ ok (d ∷ rest) | err e ↦ err e ])
          (push_all services apns (outstanding rows ds) (at (pre ++ d ∷ ds)))
  advance ds pre d rest k =
      let assoc = append_assoc pre (d ∷ []) ds in
      Refreshed-cons pre d (refresh services apns rows ds) _ (
        subst
          (λ xs.
            Refreshed (pre ++ d ∷ []) (refresh services apns rows ds)
              (push_all services apns (outstanding rows ds) (at xs)))
          assoc (rest (pre ++ d ∷ []) (subst (λ xs. Distinct (map device_key xs)) (sym assoc) k)))

  Refreshed-by :
      (pre : List Device) (r r' : Result (List Device)) (x x' : Result (Unit {0}) × Session)
      → r' ≡ r
      → x' ≡ x
      → Refreshed pre r x
      → Refreshed pre r' x'
  Refreshed-by pre r r' x x' e f h = rw (e, f) h

  abbrev then_rest : List Device → Result Device → Result (List Device)
  then_rest ds (ok d) = elim (refresh services apns rows ds) [
    | ok rest ↦ ok (d ∷ rest)
    | err e ↦ err e
  ]
  then_rest ds (err e) = err e

  -- The device at the head: what the pass makes of it, and the statements of the round.
  head-Refreshed :
      (ds pre : List Device) (d : Device) (r : Result Device) (m : Exec Session (Unit {0}))
      → Refreshes ds
      → Distinct (map device_key (pre ++ d ∷ ds))
      → ((d' : Device)
          → r ≡ ok d'
          → (m (at (pre ++ d ∷ ds)) ≡ (ok tt, at (pre ++ d' ∷ ds))) × (d'.id ≡ d.id))
      → ((e : Exn) → r ≡ err e → m (at (pre ++ d ∷ ds)) ≡ (err e, at (pre ++ d ∷ ds)))
      → Refreshed pre
          (then_rest ds r)
          ((m >> push_all services apns (outstanding rows ds)) (at (pre ++ d ∷ ds)))
  head-Refreshed ds pre d (ok d') m rest k h f =
      let (ran, key) = h d' refl in
      Refreshed-by pre (then_rest ds (ok d')) _ _ _ refl
        (bind-ok m (λ _. push_all services apns (outstanding rows ds)) _ _ tt ran)
        (advance ds pre d' rest (
          subst (λ xs. Distinct (map device_key xs)) (save-middle device_key d' d pre ds key k)
            (Distinct-save device_key d' _ k)))
  head-Refreshed ds pre d (err e) m rest k h f =
      let raised =
        bind-err m (λ _. push_all services apns (outstanding rows ds)) _ _ e (f e refl) in
      (
        ap (λ (x : Result (Unit {0}) × Session). x.0) raised,
        ap (λ (x : Result (Unit {0}) × Session). x.1.stored) raised,
      )

  abbrev chosen : Device → Bool → Bool → Result Device
  chosen d eligible absent =
      if eligible && not absent
      then answered services (push_answer apns d.push_magic d.token d.topic) d
      else ok d

  abbrev selected : Device → List Device → Bool → List (Device × ℕ)
  selected d ds eligible =
      if eligible then (d, outstanding_count rows d) ∷ outstanding rows ds else outstanding rows ds

  push_all-refresh : (todo : List Device) → Refreshes todo
  unfolding push_all outstanding
  push_all-refresh [] pre k = refl
  push_all-refresh (d ∷ ds) pre k =
      let rest = push_all-refresh ds in
      let missing = is_null d.token || is_null d.push_magic in
      let pushes =
        λ (eligible : Bool). push_all services apns (selected d ds eligible) (at (pre ++ d ∷ ds)) in
      elim (Bool-cases (d.is_enrolled && ltb 0 (outstanding_count rows d))) [
        | inr idle ↦
            Refreshed-by pre (then_rest ds (ok d)) _ _ _
              (ap (λ b. then_rest ds (chosen d b missing)) idle) (ap pushes idle)
              (advance ds pre d rest k)
        | inl eligible ↦ elim (Bool-cases missing) [
          | inl absent ↦
              Refreshed-by pre (then_rest ds (ok d)) _ _ _
                (ap (λ b. then_rest ds (chosen d b missing)) eligible
                  ∙ ap (λ b. then_rest ds (chosen d true b)) absent)
                (ap pushes eligible
                  ∙ bind-ok (push_outstanding services apns d)
                      (λ _. push_all services apns (outstanding rows ds)) _ _ tt
                      (push_outstanding-skipped services apns stored db draws d _ absent))
                (advance ds pre d rest k)
          | inr present ↦
              Refreshed-by pre
                (then_rest ds (answered services (push_answer apns d.push_magic d.token d.topic) d))
                _ _ _
                (ap (λ b. then_rest ds (chosen d b missing)) eligible
                  ∙ ap (λ b. then_rest ds (chosen d true b)) present)
                (ap pushes eligible)
                (head-Refreshed ds pre d
                  (answered services (push_answer apns d.push_magic d.token d.topic) d)
                  (push_outstanding services apns d) rest k
                  (λ d' e.
                    push_outstanding-answered services apns stored db draws ds pre d d' _ refl k
                      present e)
                  (λ e h.
                    push_outstanding-err services apns stored db draws d e _ present
                      (answered-err services apns stored db draws d e _ h)))
        ]
      ]

-- With distinct keys of the devices, a round of the push thread on the stored tables is one pass
-- over the device table: an enrolled device with a token, a push magic and a queued command that
-- has no `after` and a ttl above 0 becomes what its push makes of it, every other device stays as
-- it is, and nothing else changes; where a push raises, the round raises and stores nothing.
pub push_round-refresh :
    (services : Services) (apns : Apns) (db : Db)
    → Distinct (map device_key db.devices)
    → push_round services apns db ≡ (elim (refresh services apns db.commands db.devices) [
      | ok ds ↦ (ok tt, record db { devices = ds })
      | err e ↦ (err e, db)
    ])
unfolding push_round push_pending begin commit
push_round-refresh services apns db k =
    finish (refresh services apns db.commands db.devices)
      (push_all services apns (outstanding db.commands db.devices) (begin db))
      (push_all-refresh services apns db.commands db db 0 db.devices [] k)
  where
    settled : Result (Unit {0}) × Session → Result (Unit {0}) × Db
    settled x =
        let ended : Result (Unit {0}) × Session = elim x.0 [
          | ok a ↦ commit x.1
          | err e ↦ (err e, x.1)
        ] in
        (ended.0, ended.1.stored)

    finish :
        (r : Result (List Device)) (x : Result (Unit {0}) × Session)
        → Refreshed services apns db.commands db db 0 [] r x
        → settled x ≡ (elim r [ ok ds ↦ (ok tt, record db { devices = ds }) | err e ↦ (err e, db) ])
    finish (ok ds) x h = ap settled h
    finish (err e) (ok a, s) h = ground arith
    finish (err e) (err c, s) h = λ i. (h.0 i, h.1 i)
