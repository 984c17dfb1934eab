-- ===== src/Dep/Cursor.antt =====
-- DEPFetchCursor and DEPSyncCursor of commandment/dep/dep.py. A cursor is its results, which are
-- None before the first page of a fetch.
pub mod Paging
use commandment.Base.{String, Bool, true, false, Option, none, some, if◌then◌else◌}
use commandment.Python.Values.{Value, null, text, flag, Fields, end, field, get_or, truthy}
use commandment.Python.Exec.{stop_iteration, Result, ok, err, Exec, pure, raise, ◌>>=◌}
use commandment.Dep.{Service, Dep}
use commandment.Dep.Client.{fetch_devices, sync_devices}

-- DEPBaseCursor.cursor; `not self.results` holds of an empty dictionary too
unfoldable pub cursor : Option Fields → Value
unfolding get_or
cursor none = null
cursor (some end) = null
cursor (some (field k v d)) = get_or "cursor" null (field k v d)

-- DEPBaseCursor.more_to_follow, as `if` reads it
unfoldable pub more_to_follow : Option Fields → Bool
unfolding get_or
more_to_follow none = true
more_to_follow (some end) = true
more_to_follow (some (field k v d)) = truthy (get_or "more_to_follow" (flag false) (field k v d))

-- DEPFetchCursor.__next__: without a cursor the request has the default, None
unfoldable pub next_fetch : Service → Option Fields → Exec Dep Fields
next_fetch service results =
    if more_to_follow results then fetch_devices service (cursor results) else raise stop_iteration

-- DEPSyncCursor(owner, cursor)
unfoldable pub sync_cursor : String → Option Fields
sync_cursor c = some (field "cursor" (text c) (field "more_to_follow" (flag true) end))

-- DEPSyncCursor.__next__
unfoldable pub next_sync : Service → Option Fields → Exec Dep Fields
next_sync service results =
    if more_to_follow results then sync_devices service (cursor results) else raise stop_iteration
