-- ===== src/Vpp/Cursor/Paging.antt =====
-- What the cursors of the volume purchase programme visit.
use commandment.Base.{
  ap, ℕ, zero, suc, String, ◌<◌, ◌≡◌, refl, none, some, List, [], ◌∷◌, arith, length, Option,
}
use commandment.Python.Values.{Value, null, text, num, Fields, get_or, get}
use commandment.Python.Exec.{Result, ok}
use commandment.Vpp.{Post, Vpp}
use commandment.Vpp.Requests.{call, ◌>>=◌}
use commandment.Vpp.Cursor.{
  Cursor, UserCursor, batch_token, users_body, next_users, licenses_body, batch, next_licenses,
}

batch_token-get :
    (c : Cursor) (o : Option Value)
    → get "batchToken" c.current ≡ o
    → batch_token c ≡ elim o [ none ↦ null | some v ↦ v ]
unfolding batch_token get_or
batch_token-get c o h = ap (λ o. elim o [ none ↦ null | some v ↦ v ]) h

module _ (vpp : Vpp) (post : Post) where
  -- The service answers with `pages` after the reply of the cursor: each page but the last names the
  -- token under which the next one is asked for.
  pub data Follows : Cursor → List Fields → Type 0 where
    last : {c : Cursor} → get "batchToken" c.current ≡ none → Follows c []
    more :
        {c : Cursor} {token : String} {page : Fields} {pages : List Fields}
        → get "batchToken" c.current ≡ some (text token)
        → call vpp post "getLicensesSrvUrl" (licenses_body vpp (batch (text token))) ≡ ok page
        → Follows (record { current = page }) pages
        → Follows c (page ∷ pages)

  -- The replies that `next` gives, until it returns None, at most n of them.
  unfoldable pub visited : ℕ → Cursor → Result (List Fields)
  visited zero c = ok []
  visited (suc n) c = next_licenses vpp post c >>= λ next. elim next [
    | none ↦ ok []
    | some d ↦ visited n d >>= λ pages. ok (d.current ∷ pages)
  ]

  -- Where each page of licenses names the token under which the service answers with the next one,
  -- and the last names none, calling next until it returns None gives exactly those pages in
  -- order, within one call more than there are pages.
  pub visited-pages :
      (c : Cursor) (pages : List Fields) (n : ℕ)
      → Follows c pages
      → length pages < n
      → visited n c ≡ ok pages
  unfolding visited next_licenses
  visited-pages c [] zero (last e) l = ground arith
  visited-pages c (p ∷ ps) zero f l = ground arith
  visited-pages c [] (suc n) (last e) l = rw (batch_token-get c none e)
  visited-pages c (p ∷ ps) (suc n) (more e r f) l = rw (
    batch_token-get c (some (text _)) e,
    r,
    visited-pages (record { current = p }) ps n f ground arith,
  )

  -- Where a cursor of users has a batch token and the service answers the request for it with
  -- retired users included, next asks exactly that, whatever the cursor says it includes, and the
  -- new cursor goes on saying it; the request holds includeRetired.
  pub next_users-retired :
      (c : UserCursor) (token : String) (page : Fields)
      → get "batchToken" c.cursor.current ≡ some (text token)
      → call vpp post "getUsersSrvUrl" (users_body vpp 1 (text token) null) ≡ ok page
      → (next_users vpp post c
          ≡ ok (
              some (record {
                cursor = record { current = page };
                includes_retired = c.includes_retired;
              })))
        × (get "includeRetired" (users_body vpp 1 (text token) null) ≡ some (num 1))
  unfolding next_users users_body get
  next_users-retired c token page e r =
      (rw (batch_token-get c.cursor (some (text token)) e, r), refl)
