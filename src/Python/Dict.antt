-- ===== src/Python/Dict.antt =====
-- A dictionary has no key twice, and `update` on an empty one copies it.
use commandment.Base.{String, ◌≡◌, refl, sym, ap, ◌∙◌, false, arith, eq_iff, str_eq}
use commandment.Python.Values.{Value, Fields, end, field, contains, put, update}

-- no key stands twice
abbrev pub IsDict : Fields → Type 0
IsDict end = Unit
IsDict (field k v d) = (contains k d ≡ false) × IsDict d

concat : Fields → Fields → Fields
concat end e = e
concat (field k v d) e = field k v (concat d e)

concat-end : (d : Fields) → concat d end ≡ d
unfolding concat
concat-end end = refl
concat-end (field k v d) = ap (field k v) (concat-end d)

concat_assoc : (d e f : Fields) → concat (concat d e) f ≡ concat d (concat e f)
unfolding concat
concat_assoc end e f = refl
concat_assoc (field k v d) e f = ap (field k v) (concat_assoc d e f)

-- What stands behind a key differs from it, so the key is not in what stands before.
fresh_before :
    (k : String) (v : Value) (d e : Fields) → IsDict (concat d (field k v e)) → contains k d ≡ false
unfolding concat contains
fresh_before k v end e h = refl
fresh_before k v (field j w d) e h =
    ground (arith, absent d, eq_iff j k, eq_iff k j, fresh_before k v d e h.1)
  where
    absent : (d : Fields) → contains j (concat d (field k v e)) ≡ false → str_eq k j ≡ false
    absent end h = ground arith
    absent (field i x d) h = ground (arith, absent d)

put_fresh :
    (k : String) (v : Value) (d : Fields)
    → contains k d ≡ false
    → put k v d ≡ concat d (field k v end)
unfolding put concat contains
put_fresh k v end h = refl
put_fresh k v (field j w d) h = ground (arith, put_fresh k v d)

update-eq-concat : (d e : Fields) → IsDict (concat d e) → update d e ≡ concat d e
unfolding update
update-eq-concat d end h = sym (concat-end d)
update-eq-concat d (field k v e) h =
    let split = concat_assoc d (field k v end) e in
    let added = put_fresh k v d (fresh_before k v d e h) in
    rw added (
      update-eq-concat (concat d (field k v end)) e (unfold concat in rw split h)
      ∙ (unfold concat in split))

pub update-end : (d : Fields) → IsDict d → update end d ≡ d
unfolding concat
update-end d h = update-eq-concat end d h
