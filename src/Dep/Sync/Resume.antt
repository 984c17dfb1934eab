-- ===== src/Dep/Sync/Resume.antt =====
-- What a run of dep_fetch_devices that a page ends leaves for the next one.
use commandment.Base.{
  ℕ, ◌<◌, ◌≡◌, refl, sym, ap, subst, String, Bool, true, false, Option, length, ◌∙◌, List, [], ◌∷◌,
  ◌++◌, arith,
}
use commandment.Python.Values.{Value, null, Fields, get_or}
use commandment.Python.Exec.{
  Exn, Result, ok, err, pure, lift, bind-ok, bind-err, bind-Ran, ◌>>=◌, ◌>>◌,
}
use commandment.Python.Spec.{Ends, Spec}
use commandment.Store.Session.{save}
use commandment.Dep.Account.{
  DepAccount, DepTables, DepSession, DateParser, account_key, new_session, put_account,
  commit_tables,
}
use commandment.Dep.{Service}
use commandment.Dep.Client.{is_past}
use commandment.Dep.Client.Limits.{talking}
use commandment.Dep.Sync.Pages.{Begins, dep_fetch_devices-pages}
use commandment.Dep.Sync.{store_page, advanced, dep_fetch_devices}
use commandment.Dep.Sync.Kept.{store_pages, device-IsIgnored, page-Spec}

-- The cursor behind the pages.
abbrev pub last_cursor : List Fields → Value → Value
unfolding get_or
last_cursor [] c = c
last_cursor (page ∷ pages) c = last_cursor pages (get_or "cursor" null page)

-- The tables hold the account alone, and what is stored is `tables`.
record Before (tables : DepTables) (a : DepAccount) (s : DepSession) : Type 0 where
  pub stored : s.stored ≡ tables
  pub accounts : s.working.accounts ≡ a ∷ []

-- What is stored is what the session works on, with the account alone.
pub record IsSettled (a : DepAccount) (s : DepSession) : Type 0 where
  pub same : s.stored ≡ s.working
  pub accounts : s.working.accounts ≡ a ∷ []

record Advanced (page : Fields) (a a' : DepAccount) (s : DepSession) : Type 0 where
  pub settled : IsSettled a' s
  pub cursor : a'.cursor ≡ get_or "cursor" null page

finish-Advanced :
    (tables : DepTables) (a : DepAccount) (page : Fields) (t : ℕ)
    → Spec
        (Before tables a)
        (do put_account (advanced page t a); commit_tables; pure (advanced page t a))
        (Advanced page a)
        (Before tables a)
unfolding put_account save advanced get_or
finish-Advanced tables a page t = record {
  at = λ s h. record {
    settled = record {
      same = refl;
      accounts = ap (save account_key (advanced page t a)) h.accounts ∙ ground arith;
    };
    cursor = refl;
  };
}

page-Advanced :
    (parse : DateParser) (tables : DepTables) (a : DepAccount) (page : Fields)
    → Spec (Before tables a) (store_page parse a page) (Advanced page a) (Before tables a)
page-Advanced parse tables a page =
    page-Spec (Before tables a) parse
      (device-IsIgnored (Before tables a) parse
        (λ s db h. record { stored = h.stored; accounts = h.accounts }))
      (Advanced page a) a page (finish-Advanced tables a page)

-- Pages that are stored leave their account and its cursor.
pages-IsSettled :
    (parse : DateParser) (pages : List Fields) (a a' : DepAccount) (s s' : DepSession)
    → IsSettled a s
    → store_pages parse a pages s ≡ (ok a', s')
    → IsSettled a' s' × (a'.cursor ≡ last_cursor pages a.cursor)
unfolding store_pages
pages-IsSettled parse [] a a' s s' h e =
    subst (Ends (λ b t. IsSettled b t × (b.cursor ≡ a.cursor)) (λ _. Unit)) e (h, refl)
pages-IsSettled parse (page ∷ pages) a a' s s' h e =
    let ran = bind-Ran (store_page parse a page) (λ b. store_pages parse b pages) s a' s' e in
    let x =
      (page-Advanced parse s.stored a page).at s
        (record { stored = refl; accounts = h.accounts }) in
    let y =
      subst (λ (r : Result DepAccount × DepSession). Ends (Advanced page a) (Before s.stored a) r)
        ran.first x in
    let (settled, at) = pages-IsSettled parse pages ran.value a' ran.state s' y.settled ran.next in
    (settled, at ∙ ap (last_cursor pages) y.cursor)

store_pages-err :
    (parse : DateParser) (pages more : List Fields) (p : Fields) (a a' : DepAccount)
    (s s' s'' : DepSession) (e : Exn)
    → store_pages parse a pages s ≡ (ok a', s')
    → store_page parse a' p s' ≡ (err e, s'')
    → store_pages parse a (pages ++ p ∷ more) s ≡ (err e, s'')
unfolding store_pages
store_pages-err parse [] more p a a' s s' s'' e h k =
    bind-err (store_page parse a p) (λ b. store_pages parse b more) s s'' e
      (ap (λ (x : Result DepAccount × DepSession). (lift x.0 >>= λ b. store_page parse b p) x.1) h
        ∙ k)
store_pages-err parse (page ∷ pages) more p a a' s s' s'' e h k =
    let ran = bind-Ran (store_page parse a page) (λ b. store_pages parse b pages) s a' s' h in
    bind-ok (store_page parse a page) (λ b. store_pages parse b (pages ++ p ∷ more)) s ran.state
      ran.value ran.first
    ∙ store_pages-err parse pages more p ran.value a' ran.state s' s'' e ran.next k

-- Where such a run has stored some pages and the next one raises, the run raises the same and
-- leaves stored exactly what was stored behind the earlier pages, with the account under the
-- cursor of the last of them, or under its own where there was none.
pub dep_fetch_devices-interrupted :
    (service : Service) (token : String) (expiry : Option ℕ) (parse : DateParser)
    (pages more : List Fields) (p : Fields) (n : ℕ) (a a' : DepAccount) (s s' s'' : DepSession)
    (e : Exn)
    → is_past service.now expiry ≡ false
    → s.client ≡ talking token expiry
    → s.stored.accounts ≡ a ∷ []
    → Begins service token a (pages ++ p ∷ more)
    → length (pages ++ p ∷ more) < n
    → (new_session >> store_pages parse a pages) s ≡ (ok a', s')
    → store_page parse a' p s' ≡ (err e, s'')
    → let (r, ended) = dep_fetch_devices parse service n s in
      (r ≡ err e)
      × ((ended.stored ≡ s'.stored)
          × ((ended.stored.accounts ≡ a' ∷ []) × (a'.cursor ≡ last_cursor pages a.cursor)))
dep_fetch_devices-interrupted service token expiry parse pages more p n a a' s s' s'' e valid held
      accounts begins l stored failed =
    let (settled, at) =
      pages-IsSettled parse pages a a' (record s { working = s.stored }) s'
        (record { same = refl; accounts = accounts }) stored in
    let whole : dep_fetch_devices parse service n s ≡ (err e, s'') =
      dep_fetch_devices-pages service token expiry parse a (pages ++ p ∷ more) n s valid held
        accounts begins l
      ∙ bind-err (new_session >> store_pages parse a (pages ++ p ∷ more)) (λ _. pure true) s s'' e
          (store_pages-err parse pages more p a a' (record s { working = s.stored }) s' s'' e stored
            failed) in
    let before = subst (Ends (Advanced p a') (Before s'.stored a')) failed (
      (page-Advanced parse s'.stored a' p).at s'
        (record { stored = refl; accounts = settled.accounts })) in
    subst
      (λ (x : Result Bool × DepSession).
        (x.0 ≡ err e)
        × ((x.1.stored ≡ s'.stored)
            × ((x.1.stored.accounts ≡ a' ∷ []) × (a'.cursor ≡ last_cursor pages a.cursor))))
      (sym whole)
      (
        refl,
        (
          before.stored,
          (ap (λ t. t.accounts) (before.stored ∙ settled.same) ∙ settled.accounts, at),
        ),
      )
