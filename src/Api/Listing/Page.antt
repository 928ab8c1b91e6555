-- ===== src/Api/Listing/Page.antt =====
-- What one page of changes holds (`list_objects`, apps/api/src/store.rs).
use safeory.Base.{
  ℕ, ◌≤◌, ◌<◌, ◌≡◌, ◌⊎◌, inl, inr, ◌-◌, List, [], ◌∷◌, nat_eq, ◌==◌, filter, length, In, here,
  there, in-cons, in-filter, in-filter_inv, All, All-in, All_of_in, Bool-cases, arith,
}
use safeory.Sync.Types.{Uuid}
use safeory.Api.Tables.{Database, ObjectRow}
use safeory.Api.Listing.{page, limit_rows, order_by_seq, is_after}
use safeory.Api.Listing.Order.{
  IsOrdered, order_by_seq-IsOrdered, in-order_by_seq, in-order_by_seq_inv,
}

in-limit_rows_inv :
    (x : ObjectRow) (n : ℕ) (rows : List ObjectRow) → In x (limit_rows n rows) → In x rows
unfolding limit_rows
in-limit_rows_inv x n [] m = m
in-limit_rows_inv x n (r ∷ rows) m = elim (Bool-cases (n == 0)) [
  | inl b ↦ elim (rw b at m) [ ]
  | inr b ↦ elim (in-cons (rw b at m)) [
    | inl q ↦ rw q here
    | inr k ↦ there (in-limit_rows_inv x (n - 1) rows k)
  ]
]

limit_rows-IsOrdered :
    (n : ℕ) (rows : List ObjectRow) → IsOrdered rows → IsOrdered (limit_rows n rows)
unfolding limit_rows
limit_rows-IsOrdered n [] h = tt
limit_rows-IsOrdered n (r ∷ rows) h = elim (Bool-cases (n == 0)) [
  | inl b ↦ rw b tt
  | inr b ↦ rw b (
    All_of_in (λ (x : ObjectRow). r.change_seq ≤ x.change_seq) (limit_rows (n - 1) rows)
        (λ x m.
          All-in (λ (z : ObjectRow). r.change_seq ≤ z.change_seq) h.0
            (in-limit_rows_inv x (n - 1) rows m)),
    limit_rows-IsOrdered (n - 1) rows h.1,
  )
]

length-limit_rows : (n : ℕ) (rows : List ObjectRow) → length (limit_rows n rows) ≤ n
unfolding limit_rows
length-limit_rows n [] = omega arith
length-limit_rows n (r ∷ rows) = ground (arith, length-limit_rows (n - 1) rows)

-- A row is in the front, or the front is full and does not go beyond the row.
limit_rows_cases :
    (x : ObjectRow) (n : ℕ) (rows : List ObjectRow)
    → IsOrdered rows
    → In x rows
    → In x (limit_rows n rows)
      ⊎ ((length (limit_rows n rows) ≡ n)
          × All (λ (y : ObjectRow). y.change_seq ≤ x.change_seq) (limit_rows n rows))
unfolding limit_rows
limit_rows_cases x n [] h m = elim m [ ]
limit_rows_cases x n (r ∷ rows) h m = elim (Bool-cases (n == 0)) [
  | inl b ↦ rw b (inr (ground arith, tt))
  | inr b ↦ elim (in-cons m) [
    | inl q ↦ rw b (inl (rw q here))
    | inr k ↦ elim (limit_rows_cases x (n - 1) rows h.1 k) [
      | inl j ↦ rw b (inl (there j))
      | inr (full, l) ↦
          rw b
            (inr (ground arith, (All-in (λ (z : ObjectRow). r.change_seq ≤ z.change_seq) h.0 k, l)))
    ]
  ]
]

-- A page of an account's rows after a cursor.
pub record IsPage (db : Database) (account_id : Uuid) (after limit : ℕ) (rows : List ObjectRow)
    : Type 0 where
  pub within : length rows ≤ limit
  pub ordered : IsOrdered rows
  pub listed :
      (x : ObjectRow)
      → In x rows
      → In x db.objects × (x.account_id ≡ account_id) × (after < x.change_seq)
  pub complete :
      (x : ObjectRow)
      → In x db.objects
      → x.account_id ≡ account_id
      → after < x.change_seq
      → In x rows
        ⊎ ((length rows ≡ limit) × All (λ (y : ObjectRow). y.change_seq ≤ x.change_seq) rows)

-- A page of changes holds at most the limit of rows of the account, after the cursor and in the
-- order of their change numbers, and skips none: a row that it leaves out comes after all of a
-- full page.
pub page-IsPage :
    (db : Database) (account_id : Uuid) (after limit : ℕ)
    → IsPage db account_id after limit (page db account_id after limit)
unfolding page
page-IsPage db account_id after limit =
    let kept = filter (is_after account_id after) db.objects in
    let rows = order_by_seq kept in
    let sorted = order_by_seq-IsOrdered kept in
    record {
      within = length-limit_rows limit rows;
      ordered = limit_rows-IsOrdered limit rows sorted;
      listed = λ x m.
          let (i, p) =
            in-filter_inv (is_after account_id after) db.objects
              (in-order_by_seq_inv x kept (in-limit_rows_inv x limit rows m)) in
          (i, ground arith, ground arith);
      complete = λ x i a l.
          limit_rows_cases x limit rows sorted
            (in-order_by_seq x kept (in-filter (is_after account_id after) i (ground arith)));
    }
