-- ===== src/Api/Listing/Order.antt =====
-- The order of a page (`list_objects`, apps/api/src/store.rs).
use safeory.Base.{
  ◌≤◌, ◌<◌, ◌≡◌, ◌⊎◌, inl, inr, ap, List, [], ◌∷◌, nat_eq, leb, In, here, there, in-cons, All,
  All-in, All_of_in, Bool-cases, arith,
}
use safeory.Api.Tables.{ObjectRow}
use safeory.Api.Listing.{insert_by_seq, order_by_seq}

abbrev pub IsOrdered : List ObjectRow → Type 0
IsOrdered [] = Unit
IsOrdered (r ∷ rows) = All (λ (x : ObjectRow). r.change_seq ≤ x.change_seq) rows × IsOrdered rows

in-insert_by_seq :
    (r x : ObjectRow) (rows : List ObjectRow) → ((x ≡ r) ⊎ In x rows) → In x (insert_by_seq r rows)
unfolding insert_by_seq
in-insert_by_seq r x [] e = elim e [ inl q ↦ rw q here | inr m ↦ elim m [ ] ]
in-insert_by_seq r x (y ∷ rows) e = elim (Bool-cases (leb r.change_seq y.change_seq)) [
  | inl b ↦ rw b (elim e [ inl q ↦ rw q here | inr m ↦ there m ])
  | inr b ↦ rw b (elim e [
    | inl q ↦ there (in-insert_by_seq r x rows (inl q))
    | inr m ↦ elim (in-cons m) [
      | inl q ↦ rw q here
      | inr k ↦ there (in-insert_by_seq r x rows (inr k))
    ]
  ])
]

in-insert_by_seq_inv :
    (r x : ObjectRow) (rows : List ObjectRow) → In x (insert_by_seq r rows) → (x ≡ r) ⊎ In x rows
unfolding insert_by_seq
in-insert_by_seq_inv r x [] m = in-cons m
in-insert_by_seq_inv r x (y ∷ rows) m = elim (Bool-cases (leb r.change_seq y.change_seq)) [
  | inl b ↦ in-cons (rw b at m)
  | inr b ↦ elim (in-cons (rw b at m)) [
    | inl q ↦ inr (rw q here)
    | inr k ↦ elim (in-insert_by_seq_inv r x rows k) [ inl q ↦ inl q | inr j ↦ inr (there j) ]
  ]
]

insert_by_seq-IsOrdered :
    (r : ObjectRow) (rows : List ObjectRow) → IsOrdered rows → IsOrdered (insert_by_seq r rows)
unfolding insert_by_seq
insert_by_seq-IsOrdered r [] h = (tt, tt)
insert_by_seq-IsOrdered r (y ∷ rows) h = elim (Bool-cases (leb r.change_seq y.change_seq)) [
  | inl b ↦
      let l : r.change_seq ≤ y.change_seq = ground arith in
      rw b (
        (
          l,
          All_of_in (λ (x : ObjectRow). r.change_seq ≤ x.change_seq) rows
              (λ x m.
                let k = All-in (λ (z : ObjectRow). y.change_seq ≤ z.change_seq) h.0 m in
                omega (arith, l, k)),
        ),
        h,
      )
  | inr b ↦
      let l : y.change_seq < r.change_seq = ground arith in
      rw b (
        All_of_in (λ (x : ObjectRow). y.change_seq ≤ x.change_seq) (insert_by_seq r rows)
            (λ x m. elim (in-insert_by_seq_inv r x rows m) [
              | inl q ↦ let k = ap (λ (z : ObjectRow). z.change_seq) q in omega (arith, l, k)
              | inr j ↦ All-in (λ (z : ObjectRow). y.change_seq ≤ z.change_seq) h.0 j
            ]),
        insert_by_seq-IsOrdered r rows h.1,
      )
]

-- `ORDER BY change_seq` puts the rows in ascending order.
pub order_by_seq-IsOrdered : (rows : List ObjectRow) → IsOrdered (order_by_seq rows)
unfolding order_by_seq
order_by_seq-IsOrdered [] = tt
order_by_seq-IsOrdered (r ∷ rows) =
    insert_by_seq-IsOrdered r (order_by_seq rows) (order_by_seq-IsOrdered rows)

-- Ordering loses no row.
pub in-order_by_seq : (x : ObjectRow) (rows : List ObjectRow) → In x rows → In x (order_by_seq rows)
unfolding order_by_seq
in-order_by_seq x [] m = elim m [ ]
in-order_by_seq x (r ∷ rows) m = elim (in-cons m) [
  | inl q ↦ in-insert_by_seq r x (order_by_seq rows) (inl q)
  | inr k ↦ in-insert_by_seq r x (order_by_seq rows) (inr (in-order_by_seq x rows k))
]

-- Ordering adds no row.
pub in-order_by_seq_inv :
    (x : ObjectRow) (rows : List ObjectRow) → In x (order_by_seq rows) → In x rows
unfolding order_by_seq
in-order_by_seq_inv x [] m = elim m [ ]
in-order_by_seq_inv x (r ∷ rows) m = elim (in-insert_by_seq_inv r x (order_by_seq rows) m) [
  | inl q ↦ rw q here
  | inr k ↦ there (in-order_by_seq_inv x rows k)
]
