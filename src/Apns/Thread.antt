-- ===== src/Apns/Thread.antt =====
-- The push thread of commandment/apns/threads.py. A round has its services and its APNs client;
-- the rounds end where the event that `stop` sets is found set. A round that raises stores nothing:
-- the session goes with its application context.
pub mod Refresh
pub mod Single
pub mod Rounds
pub mod Outcomes
use commandment.Base.{
  ℕ, Bool, true, false, ◌&&◌, ◌||◌, Option, none, some, List, [], ◌∷◌, keep, length, ltb,
  if◌then◌else◌,
}
use commandment.Python.Values.{Value, null}
use commandment.Python.Exec.{Exn, ssl_error, Result, ok, err, Exec, pure, gets, ◌>>=◌, ◌>>◌}
use commandment.Store.Rows.{Device, CommandRow, Db}
use commandment.Store.Session.{Session, begin, commit, put_device}
use commandment.Apns.Push.{Apns, pushed, push_to_device}
use commandment.Mdm.Queue.{Services, is_pending}

abbrev pub is_null : Value → Bool
is_null null = true
is_null _ = false

abbrev is_unscheduled : Option ℕ → Bool
is_unscheduled none = true
is_unscheduled (some t) = false

-- The filters on Command: queued for the device, with a ttl above 0 and no `after`.
unfoldable pub is_outstanding : ℕ → CommandRow → Bool
unfolding is_pending
is_outstanding device_id c = is_pending device_id c && (ltb 0 c.ttl && is_unscheduled c.after)

abbrev pub outstanding_count : List CommandRow → Device → ℕ
unfolding is_outstanding
outstanding_count rows d = length (keep (is_outstanding d.id) rows)

-- The join of the devices with their commands, grouped by Device.id, with Device.is_enrolled.
unfoldable pub outstanding : List CommandRow → List Device → List (Device × ℕ)
unfolding is_outstanding
outstanding rows [] = []
outstanding rows (d ∷ ds) =
    let rest = outstanding rows ds in
    if d.is_enrolled && ltb 0 (outstanding_count rows d)
    then (d, outstanding_count rows d) ∷ rest
    else rest

-- One device of the round: none without a token and a push magic.
unfoldable pub push_outstanding : Services → Apns → Device → Exec Session (Unit {0})
unfolding push_to_device put_device
push_outstanding services apns d = if is_null d.token || is_null d.push_magic then pure tt else (do
  (response, d') ← push_to_device apns d
  put_device (pushed services.utcnow response d'))

unfoldable pub push_all : Services → Apns → List (Device × ℕ) → Exec Session (Unit {0})
unfolding push_outstanding
push_all services apns [] = pure tt
push_all services apns ((d, count) ∷ pending) =
    push_outstanding services apns d >> push_all services apns pending

unfoldable pub push_pending : Services → Apns → Exec Session (Unit {0})
unfolding outstanding push_all commit
push_pending services apns = do
  pending ← gets (λ s. outstanding s.working.commands s.working.devices)
  push_all services apns pending
  commit

-- One round on the stored tables.
unfoldable pub push_round : Services → Apns → Db → Result (Unit {0}) × Db
unfolding push_pending begin
push_round services apns db = let (r, s) = push_pending services apns (begin db) in (r, s.stored)

-- How the thread ends: by the event, by `stop` after an SSLError, or by another exception.
pub data ThreadEnd : Type 0 where
  waited stopped : ThreadEnd
  died : Exn → ThreadEnd

unfoldable pub push_thread_callback : List (Services × Apns) → Db → ThreadEnd × Db
unfolding push_round
push_thread_callback [] db = (ThreadEnd.waited, db)
push_thread_callback ((services, apns) ∷ rounds) db =
    let (r, db') = push_round services apns db in
    elim r [
      | ok _ ↦ push_thread_callback rounds db'
      | err ssl_error ↦ (ThreadEnd.stopped, db')
      | err e ↦ (ThreadEnd.died e, db')
    ]
