-- ===== src/Api/Listing.antt =====
-- `MetadataStore::list_objects` (apps/api/src/store.rs): one page of an account's changes after a
-- cursor. `ORDER BY change_seq` is an insertion sort, `LIMIT` the front of the list.
pub mod Order
pub mod Page
use safeory.Base.{
  ℕ, ◌+◌, ◌≤◌, ◌<◌, ◌≡◌, ◌⊎◌, inl, inr, refl, ap, ◌-◌, ◌>>=◌, true, Bool, ◌&&◌, List, [], ◌∷◌,
  Result, ok, err, nat_eq, ◌==◌, ltb, leb, filter, length, In, here, there, in-cons, in-filter,
  in-filter_inv, All, All-in, All_of_in, Bool-cases, arith, if◌then◌else◌,
}
use safeory.Sync.Types.{Uuid}
use safeory.Api.Policy.{StoredObject}
use safeory.Api.Tables.{Database, ObjectRow, CommitError, row_to_object}

unfoldable pub insert_by_seq : ObjectRow → List ObjectRow → List ObjectRow
insert_by_seq r [] = r ∷ []
insert_by_seq r (x ∷ rows) =
    let rest = insert_by_seq r rows in
    if leb r.change_seq x.change_seq then r ∷ x ∷ rows else x ∷ rest

unfoldable pub order_by_seq : List ObjectRow → List ObjectRow
order_by_seq [] = []
order_by_seq (r ∷ rows) = insert_by_seq r (order_by_seq rows)

unfoldable pub limit_rows : ℕ → List ObjectRow → List ObjectRow
limit_rows n [] = []
limit_rows n (r ∷ rows) = let rest = limit_rows (n - 1) rows in if n == 0 then [] else r ∷ rest

abbrev pub is_after : Uuid → ℕ → ObjectRow → Bool
is_after account_id after row = row.account_id == account_id && ltb after row.change_seq

-- The rows of the page.
unfoldable pub page : Database → Uuid → ℕ → ℕ → List ObjectRow
page db account_id after limit =
    limit_rows limit (order_by_seq (filter (is_after account_id after) db.objects))

-- `into_iter().map(row_to_object).collect()`
unfoldable pub read_rows : List ObjectRow → Result CommitError (List StoredObject)
read_rows [] = ok []
read_rows (r ∷ rows) = do o ← row_to_object r; rest ← read_rows rows; ok (o ∷ rest)

unfoldable pub list_objects : Database → Uuid → ℕ → ℕ → Result CommitError (List StoredObject)
list_objects db account_id after limit = read_rows (page db account_id after limit)
