-- ===== src/Mdm/Queue/Oldest.antt =====
-- Command.next_command takes the oldest queued command of the device, whatever its `after` and
-- its `ttl` are.
use mathlib.Core.Option
use commandment.Base.{
  ℕ, ◌≤◌, ◌≡◌, refl, ap, subst, ◌∙◌, true, false, Option, none, some, List, [], ◌∷◌, All, IsIn, map,
  ltb, arith, Bool-cases, inl, inr,
}
use commandment.Store.Rows.{CommandRow}
use commandment.Mdm.Queue.{is_pending, older, next_command}

-- What a query for the oldest pending row of a device has to answer.
abbrev pub IsOldest : ℕ → List CommandRow → Option CommandRow → Type 0
IsOldest d rows none = All (λ c. is_pending d c ≡ false) rows
IsOldest d rows (some q) =
    (is_pending d q ≡ true) × IsIn q rows × All (λ c. is_pending d c ≡ true → q.id ≤ c.id) rows

-- A bound for the oldest row so far bounds every row.
All-lower :
    (d : ℕ) (q r : CommandRow) (rows : List CommandRow)
    → q.id ≤ r.id
    → All (λ c. is_pending d c ≡ true → r.id ≤ c.id) rows
    → All (λ c. is_pending d c ≡ true → q.id ≤ c.id) rows
All-lower d q r [] le h = tt
All-lower d q r (c ∷ cs) le h = (λ p. omega (arith, h.0 p), All-lower d q r cs le h.1)

All-none :
    (d : ℕ) (q : CommandRow) (rows : List CommandRow)
    → All (λ c. is_pending d c ≡ false) rows
    → All (λ c. is_pending d c ≡ true → q.id ≤ c.id) rows
All-none d q [] h = tt
All-none d q (c ∷ cs) h = (λ p. cc (h.0), All-none d q cs h.1)

skip_row :
    (d : ℕ) (c : CommandRow) (rows : List CommandRow) (found : Option CommandRow)
    → is_pending d c ≡ false
    → IsOldest d rows found
    → IsOldest d (c ∷ rows) found
skip_row d c rows none no_match h = (no_match, h)
skip_row d c rows (some q) no_match h = (h.0, inr h.1, ((λ p. cc no_match), h.2))

take_row :
    (d : ℕ) (c : CommandRow) (rows : List CommandRow) (found : Option CommandRow)
    → is_pending d c ≡ true
    → IsOldest d rows found
    → IsOldest d (c ∷ rows) (some (older c found))
take_row d c rows none match h = (match, inl refl, ((λ p. omega arith), All-none d c rows h))
take_row d c rows (some q) match h = elim (Bool-cases (ltb q.id c.id)) [
  | inl younger ↦
      let chosen : q ≡ older c (some q) = rw younger in
      subst (λ x. IsOldest d (c ∷ rows) (some x)) chosen (h.0, inr h.1, ((λ p. ground arith), h.2))
  | inr not_younger ↦
      let chosen : c ≡ older c (some q) = rw not_younger in
      subst (λ x. IsOldest d (c ∷ rows) (some x)) chosen
        (match, inl refl, ((λ p. omega arith), All-lower d c q rows (ground arith) h.2))
]

-- The command that next_command answers is queued for the device, is in the table, and has the
-- smallest id of those; none is answered only if no command is queued for the device.
pub next_command-IsOldest : (d : ℕ) (rows : List CommandRow) → IsOldest d rows (next_command d rows)
unfolding next_command
next_command-IsOldest d [] = tt
next_command-IsOldest d (c ∷ rows) = elim (Bool-cases (is_pending d c)) [
  | inl match ↦
      rw match (take_row d c rows (next_command d rows) match (next_command-IsOldest d rows))
  | inr no_match ↦
      rw no_match (skip_row d c rows (next_command d rows) no_match (next_command-IsOldest d rows))
]

-- The columns that a delivery time and a number of retries would be read from.
abbrev pub with_schedule : Option ℕ → ℕ → CommandRow → CommandRow
with_schedule after ttl c = record c { after = after; ttl = ttl }

older-with_schedule :
    (a : Option ℕ) (t : ℕ) (c : CommandRow) (o : Option CommandRow)
    → older (with_schedule a t c) (Option.map (with_schedule a t) o) ≡ with_schedule a t (older c o)
older-with_schedule a t c none = refl
older-with_schedule a t c (some q) = ground arith

-- Setting `after` and `ttl` of every row to any values does not change which command is next.
pub next_command-with_schedule :
    (d : ℕ) (a : Option ℕ) (t : ℕ) (rows : List CommandRow)
    → next_command d (map (with_schedule a t) rows)
      ≡ Option.map (with_schedule a t) (next_command d rows)
unfolding next_command
next_command-with_schedule d a t [] = refl
next_command-with_schedule d a t (c ∷ rows) = elim (Bool-cases (is_pending d c)) [
  | inl match ↦ rw match (
      ap (λ o. some (older (with_schedule a t c) o)) (next_command-with_schedule d a t rows)
      ∙ ap some (older-with_schedule a t c (next_command d rows)))
  | inr no_match ↦ rw no_match (next_command-with_schedule d a t rows)
]
