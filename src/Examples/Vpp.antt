-- ===== src/Examples/Vpp.antt =====
-- Batches of license operations, and a service with two pages of licenses.
use commandment.Base.{◌≡◌, refl, false, some, [], ◌∷◌, arith, if◌then◌else◌}
use commandment.Python.Values.{null, text, num, Fields, end, field, get, get_or, put, contains}
use commandment.Python.Exec.{ok}
use commandment.Vpp.{Post, Vpp}
use commandment.Vpp.Operation.{
  Association, Operation, user_license_operation, add, Built, for_users, added, IsUniform,
  Built-IsUniform,
}
use commandment.Vpp.Requests.{save, call}
use commandment.Vpp.Cursor.{Cursor, UserCursor, batch_token, users_body, next_users, licenses_body}
use commandment.Vpp.Cursor.Paging.{Follows, last, more, visited, visited-pages, next_users-retired}

abbrev vpp : Vpp
vpp = record {
  stoken = text "T";
  service_config = field "getLicensesSrvUrl" (text "/licenses") (
      field "getUsersSrvUrl" (text "/users")
        (field "manageVPPLicensesByAdamIdSrvUrl" (text "/manage") end));
}

abbrev last_page : Fields
last_page = field "totalCount" (num 2) (field "sinceModifiedToken" (text "S") end)

abbrev first_page : Fields
first_page = field "totalCount" (num 2) (field "batchToken" (text "B") end)

abbrev post : Post
post url body = if contains "batchToken" body then ok last_page else ok first_page

abbrev start : Cursor
start = record { current = first_page }

start-Follows : Follows vpp post start (last_page ∷ [])
unfolding batch_token licenses_body call get get_or contains put
start-Follows = more {c = start} {token = "B"} refl refl (last refl)

visited-pages_example : visited vpp post 2 start ≡ ok (last_page ∷ [])
visited-pages_example = visited-pages vpp post start (last_page ∷ []) 2 start-Follows (omega arith)

abbrev first_users : UserCursor
first_users = record { cursor = start; includes_retired = false }

first_users-token : get "batchToken" first_users.cursor.current ≡ some (text "B")
unfolding get
first_users-token = refl

first_users-page : call vpp post "getUsersSrvUrl" (users_body vpp 1 (text "B") null) ≡ ok last_page
unfolding users_body call get contains
first_users-page = refl

next_users-retired_example :
    (next_users vpp post first_users
      ≡ ok (some (record { cursor = record { current = last_page }; includes_retired = false })))
    × (get "includeRetired" (users_body vpp 1 (text "B") null) ≡ some (num 1))
next_users-retired_example =
    next_users-retired vpp post first_users "B" last_page first_users-token first_users-page

abbrev batch_of_users : Operation
unfolding user_license_operation
batch_of_users = user_license_operation (num 7) (text "STDQ")

abbrev one_added : Operation
one_added = record batch_of_users { associate = (Association.client_user_id, "u-1") ∷ [] }

one_added-Built : Built one_added
unfolding user_license_operation add
one_added-Built =
    added Association.client_user_id "u-1" one_added (for_users (num 7) (text "STDQ")) refl

Built-IsUniform_example : IsUniform one_added
Built-IsUniform_example = Built-IsUniform one_added-Built

abbrev saved : Fields
saved = last_page

batch_of_users-saved : save vpp post batch_of_users false ≡ ok first_page
unfolding save user_license_operation get contains
batch_of_users-saved = refl
