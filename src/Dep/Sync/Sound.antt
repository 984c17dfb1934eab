-- ===== src/Dep/Sync/Sound.antt =====
-- What a run of dep_fetch_devices leaves in the tables.
use commandment.Base.{ℕ}
use commandment.Python.Values.{Fields}
use commandment.Python.Spec.{Ends-same}
use commandment.Dep.{Service}
use commandment.Dep.Account.{DepAccount, DepSession, DateParser, put_account, commit_tables}
use commandment.Dep.Sync.{store_page, dep_fetch_devices}
use commandment.Dep.Sync.Kept.{IsKept, PageWithin, PageWithin-IsKept}
use commandment.Dep.Sync.Loop.{fetch-IsKept}
use commandment.Dep.Sync.Served.{Answers, Answers-Serves}
use commandment.Dep.Sync.Added.{Unkeyed}
use commandment.Dep.Sync.Serials.{IsDirectory, AreDirectories, device-AreDirectories}

commit-AreDirectories : IsKept AreDirectories commit_tables
commit-AreDirectories = record { at = λ s h. record { stored = h.working; working = h.working } }

account-AreDirectories : (a : DepAccount) → IsKept AreDirectories (put_account a)
unfolding put_account
account-AreDirectories a = record {
  at = λ s h. record {
    stored = h.stored;
    working = record { sound = h.working.sound; serials = h.working.serials };
  };
}

page-AreDirectories :
    (parse : DateParser) (a : DepAccount) (page : Fields)
    → PageWithin Unkeyed page
    → IsKept AreDirectories (store_page parse a page)
page-AreDirectories parse =
    PageWithin-IsKept Unkeyed AreDirectories parse (device-AreDirectories parse)
      account-AreDirectories commit-AreDirectories

-- Where no device of a page that the service answers names an id or a UDID, dep_fetch_devices
-- leaves stored tables in which the invariant of the tables holds and no serial number stands on
-- two device rows, where this holds of the stored tables before, whatever else the service answers
-- and however the run ends.
pub dep_fetch_devices-IsDirectory :
    (parse : DateParser) (service : Service) (n : ℕ) (s : DepSession)
    → Answers (PageWithin Unkeyed) service
    → IsDirectory s.stored
    → IsDirectory (dep_fetch_devices parse service n s).1.stored
unfolding dep_fetch_devices
dep_fetch_devices-IsDirectory parse service n s answers h =
    let (r, s') = dep_fetch_devices parse service n s in
    (Ends-same AreDirectories r s' (
      (fetch-IsKept (PageWithin Unkeyed) AreDirectories parse
          (λ s k. record { stored = k.stored; working = k.stored })
          (λ s client k. record { stored = k.stored; working = k.working })
          (page-AreDirectories parse) service n
          (Answers-Serves (PageWithin Unkeyed) service answers)).at
        (record s { working = s.stored }) (record { stored = h; working = h }))).stored
