-- ===== src/Examples/Push.antt =====
-- An enrolled phone with two queued commands, in the rounds of the push thread.
use commandment.Base.{◌≤◌, ◌≡◌, refl, true, [], ◌∷◌, keep, length, inl, arith}
use commandment.Python.Values.{Value, text, blob}
use commandment.Python.Exec.{ok, err, runtime_error}
use commandment.Store.Rows.{Device, Db}
use commandment.Store.Tables.{IsSound, has_udid}
use commandment.Apns.Thread.{
  ThreadEnd, push_round, push_thread_callback, outstanding, is_outstanding,
}
use commandment.Apns.Thread.Refresh.{refresh, is_due}
use commandment.Apns.Thread.Rounds.{push_round-refresh}
use commandment.Apns.Thread.Outcomes.{push_thread_callback-dies}
use commandment.Mdm.Queue.{is_pending}
use commandment.Examples.Mdm.{services, apns, phone, two_queued}

abbrev ready : Device
ready = record phone { is_enrolled = true; token = blob (1 ∷ 2 ∷ []); push_magic = text "M1" }

abbrev ready_db : Db
ready_db = record two_queued { devices = ready ∷ [] }

has_udid-ready : (u : Value) → length (keep (has_udid u) (ready ∷ [])) ≤ 1
has_udid-ready u = ground arith

ready_db-IsSound : IsSound ready_db
ready_db-IsSound = record {
  device_keys = (tt, tt);
  device_fresh = (omega arith, tt);
  udids = has_udid-ready;
  command_keys = ((λ e. omega arith, tt), (tt, tt));
  command_fresh = (omega arith, (omega arith, tt));
}

ready-is_due : is_due ready_db.commands ready ≡ true
unfolding is_outstanding is_pending
ready-is_due = refl

ready-outstanding : outstanding ready_db.commands ready_db.devices ≡ (ready, 2) ∷ []
unfolding outstanding is_outstanding is_pending
ready-outstanding = refl

push_round-refresh_example :
    push_round services apns ready_db
    ≡ (elim (refresh services apns ready_db.commands ready_db.devices) [
      | ok ds ↦ (ok tt, record ready_db { devices = ds })
      | err e ↦ (err e, ready_db)
    ])
push_round-refresh_example = push_round-refresh services apns ready_db (tt, tt)

push_thread_callback-dies_example :
    push_thread_callback ((services, ok tt) ∷ (services, apns) ∷ []) ready_db
    ≡ (ThreadEnd.died runtime_error, ready_db)
push_thread_callback-dies_example =
    push_thread_callback-dies services ((services, apns) ∷ []) ready_db ready ready_db-IsSound
      (inl refl) ready-is_due
