-- ===== src/Api/Store/Rows.antt =====
-- Looking up a row after an insert or an update (apps/api/src/store.rs).
use safeory.Base.{
  ◌≡◌, inl, inr, refl, true, false, none, some, List, [], ◌∷◌, ◌++◌, nat_eq, find, Bool-cases,
  arith, if◌then◌else◌,
}
use safeory.Sync.Types.{Uuid}
use safeory.Api.Tables.{ObjectRow, has_key, find_row, update_rows}

-- An inserted row is found under its key, and every other key finds what it found.
pub find_row-insert :
    (a o : Uuid) (new : ObjectRow) (rows : List ObjectRow)
    → find_row new.account_id new.object_id rows ≡ none
    → find_row a o (rows ++ new ∷ []) ≡ (if has_key a o new then some new else find_row a o rows)
unfolding find_row find
find_row-insert a o new [] h = refl
find_row-insert a o new (row ∷ rows) h = elim (Bool-cases (has_key a o row)) [
  | inl e ↦ ground arith
  | inr e ↦ ground (arith, find_row-insert a o new rows (ground arith))
]

-- An update leaves every other key alone.
find_row-update_rows_other :
    (a o : Uuid) (new : ObjectRow) (rows : List ObjectRow)
    → has_key a o new ≡ false
    → find_row a o (update_rows new rows) ≡ find_row a o rows
unfolding find_row find update_rows
find_row-update_rows_other a o new [] h = refl
find_row-update_rows_other a o new (row ∷ rows) h =
    let rest = find_row-update_rows_other a o new rows h in
    elim (Bool-cases (has_key new.account_id new.object_id row)) [
      | inl e ↦ ground arith
      | inr e ↦ ground arith
    ]

-- An updated row is found under its key.
find_row-update_rows_same :
    (a o : Uuid) (new old : ObjectRow) (rows : List ObjectRow)
    → has_key a o new ≡ true
    → find_row a o rows ≡ some old
    → find_row a o (update_rows new rows) ≡ some new
unfolding find_row find update_rows
find_row-update_rows_same a o new old [] h f = ground arith
find_row-update_rows_same a o new old (row ∷ rows) h f = elim (Bool-cases (has_key a o row)) [
  | inl e ↦ ground arith
  | inr e ↦ ground (arith, find_row-update_rows_same a o new old rows h (ground arith))
]

-- After an update, the row's key finds it, and every other key finds what it found.
pub find_row-update_rows :
    (a o : Uuid) (new old : ObjectRow) (rows : List ObjectRow)
    → find_row new.account_id new.object_id rows ≡ some old
    → find_row a o (update_rows new rows)
      ≡ (if has_key a o new then some new else find_row a o rows)
find_row-update_rows a o new old rows h = elim (Bool-cases (has_key a o new)) [
  | inl e ↦
      let p : a ≡ new.account_id = ground arith in
      let q : o ≡ new.object_id = ground arith in
      let f : find_row a o rows ≡ some old = rw (p, q) h in
      ground (arith, find_row-update_rows_same a o new old rows e f)
  | inr e ↦ ground (arith, find_row-update_rows_other a o new rows e)
]
