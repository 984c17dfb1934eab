-- ===== src/Python/Values.antt =====
-- The values that plistlib and json read and write, and Python's `dict` with string keys. A
-- dictionary keeps its insertion order, and a key that is assigned again keeps its place.
use commandment.Base.{
  ℕ, String, ◌≡◌, refl, ap, Bool, true, false, not, Option, none, some, List, [], ◌∷◌, arith,
  eq_iff, eq_refl, ◌==◌, str_eq, if◌then◌else◌,
}

mutual
  pub data Value : Type 0 where
    null : Value
    text : String → Value
    num : ℕ → Value
    -- the number -(n + 1)
    negsuc : ℕ → Value
    flag : Bool → Value
    blob : List ℕ → Value
    arr : Items → Value
    dict : Fields → Value

  pub data Items : Type 0 where
    nil : Items
    cons : Value → Items → Items

  pub data Fields : Type 0 where
    end : Fields
    field : String → Value → Fields → Fields

-- d.get(k), with the missing key told apart from a value None
unfoldable pub get : String → Fields → Option Value
get k end = none
get k (field j v d) = if str_eq j k then some v else get k d

-- `k in d`
unfoldable pub contains : String → Fields → Bool
contains k end = false
contains k (field j v d) = if str_eq j k then true else contains k d

-- d[k] = v
unfoldable pub put : String → Value → Fields → Fields
put k v end = field k v end
put k v (field j w d) = if str_eq j k then field j v d else field j w (put k v d)

-- d.get(k, x)
unfoldable pub get_or : String → Value → Fields → Value
unfolding get
get_or k x d = elim (get k d) [ none ↦ x | some v ↦ v ]

-- d.update(e)
unfoldable pub update : Fields → Fields → Fields
unfolding put
update d end = d
update d (field k v e) = update (put k v d) e

-- items.append(v)
unfoldable pub append : Items → Value → Items
append nil v = cons v nil
append (cons w xs) v = cons w (append xs v)

-- What an `if` makes of a value.
abbrev pub truthy : Value → Bool
truthy null = false
truthy (text s) = not (str_eq s "")
truthy (num n) = not (n == 0)
truthy (negsuc n) = true
truthy (flag b) = b
truthy (blob []) = false
truthy (blob (x ∷ xs)) = true
truthy (arr nil) = false
truthy (arr (cons x xs)) = true
truthy (dict end) = false
truthy (dict (field k v d)) = true

-- Equality of two columns, as a query tests it: NULL is equal to nothing.
abbrev pub sql_eq : Value → Value → Bool
sql_eq (text s) (text t) = str_eq s t
sql_eq (num m) (num n) = m == n
sql_eq (negsuc m) (negsuc n) = m == n
sql_eq (flag true) (flag b) = b
sql_eq (flag false) (flag b) = not b
sql_eq _ _ = false

pub get-put :
    (k j : String) (v : Value) (d : Fields)
    → get j (put k v d) ≡ (if str_eq k j then some v else get j d)
unfolding get put
get-put k j v end = refl
get-put k j v (field i w d) = ground (arith, eq_iff k j, eq_iff i k, eq_iff i j, get-put k j v d)

pub get-put_self : (k : String) (v : Value) (d : Fields) → get k (put k v d) ≡ some v
get-put_self k v d = simp (get-put, eq_refl)

pub contains-iff-get :
    (k : String) (d : Fields) → contains k d ≡ elim (get k d) [ none ↦ false | some _ ↦ true ]
unfolding contains get
contains-iff-get k end = refl
contains-iff-get k (field j v d) = ground (arith, contains-iff-get k d)

pub sql_eq_sound : (a b : Value) → sql_eq a b ≡ true → a ≡ b
sql_eq_sound (text s) (text t) h = ap text ((eq_iff s t).0 h)
sql_eq_sound (num m) (num n) h = ground arith
sql_eq_sound (negsuc m) (negsuc n) h = ground arith
sql_eq_sound (flag true) (flag true) h = refl
sql_eq_sound (flag false) (flag false) h = refl
sql_eq_sound a b h = ground arith
