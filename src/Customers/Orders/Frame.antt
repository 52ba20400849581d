-- ===== src/Customers/Orders/Frame.antt =====
-- The rows outside an order: what a write to one order leaves alone.
use alpha_pos_local.Base.{
  ℕ, ◌≡◌, ◌≢◌, refl, sym, ◌∙◌, subst, Bool, true, false, Option, none, some, List, ◌++◌, ◌⊎◌, inl,
  inr, arith, ◌==◌, Bool-cases, Option-cases, update_where,
}
use alpha_pos_local.Base.Tables.{
  row-update_where, row-update_other, row-key, row-append_new, row-append_old, updated,
}
use alpha_pos_local.Customers.Orders.Rows.{
  Order, Item, Store, order_is, order_row, item_row, received, save_order, save_items, notify,
  Notice,
}

-- An item of the order, if any.
abbrev pub Belongs : ℕ → Option Item → Type 0
Belongs pk none = Unit {0}
Belongs pk (some i) = i.order_id ≡ pk

-- The other orders keep their rows.
abbrev pub OrderFrame : ℕ → List Order → List Order → Type 0
OrderFrame pk xs ys = (k : ℕ) → k ≢ pk → order_row k ys ≡ order_row k xs

-- An item key keeps its row, or the row was and is of the order.
abbrev pub ItemFrame : ℕ → List Item → List Item → Type 0
ItemFrame pk xs ys =
    (k : ℕ)
    → (item_row k ys ≡ item_row k xs) ⊎ (Belongs pk (item_row k xs) × Belongs pk (item_row k ys))

abbrev pub Frame : ℕ → Store → Store → Type 0
Frame pk s t = OrderFrame pk s.orders t.orders × ItemFrame pk s.items t.items

-- The same orders and items.
abbrev pub SameRows : Store → Store → Type 0
SameRows s t = (t.orders ≡ s.orders) × (t.items ≡ s.items)

pub same_trans : (s t u : Store) → SameRows s t → SameRows t u → SameRows s u
same_trans s t u f g = (g.0 ∙ f.0, g.1 ∙ f.1)

pub SameRows-Frame : (pk : ℕ) (s t : Store) → SameRows s t → Frame pk s t
SameRows-Frame pk s t (h, k) = (λ j d. rw h refl, λ j. inl (rw k refl))

items_trans :
    (pk : ℕ) (xs ys zs : List Item) → ItemFrame pk xs ys → ItemFrame pk ys zs → ItemFrame pk xs zs
items_trans pk xs ys zs f g k = elim (f k) [
  | inl e ↦ elim (g k) [
    | inl d ↦ inl (d ∙ e)
    | inr (b, c) ↦ inr (subst (λ (x : Option Item). Belongs pk x) e b, c)
  ]
  | inr (a, b) ↦ elim (g k) [
    | inl d ↦ inr (a, subst (λ (x : Option Item). Belongs pk x) (sym d) b)
    | inr (c, d) ↦ inr (a, d)
  ]
]

pub Frame-trans : (pk : ℕ) (s t u : Store) → Frame pk s t → Frame pk t u → Frame pk s u
Frame-trans pk s t u f g =
    (λ k d. g.0 k d ∙ f.0 k d, items_trans pk s.items t.items u.items f.1 g.1)

pub save_order-Frame :
    (pk : ℕ) (write : Order → Order) (s : Store)
    → ((o : Order) → (write o).pk ≡ o.pk)
    → Frame pk s (save_order pk write s)
unfolding save_order
save_order-Frame pk write s same = (
  λ k d.
      row-update_other (λ o. o.pk) (order_is pk) (λ o. received s (write o)) same k s.orders
        (λ o found. let e : o.pk ≡ k = row-key (λ o. o.pk) k s.orders o found in ground arith),
  λ k. inl refl,
)

-- The row that a write to an order leaves.
pub save_order-row :
    (pk : ℕ) (write : Order → Order) (s : Store) (o : Order)
    → ((o : Order) → (write o).pk ≡ o.pk)
    → order_row pk s.orders ≡ some o
    → order_row pk (save_order pk write s).orders ≡ some (received s (write o))
unfolding save_order
save_order-row pk write s o same found =
    let e : o.pk ≡ pk = row-key (λ o. o.pk) pk s.orders o found in
    let t : (o.pk == pk) ≡ true = ground arith in
    row-update_where (λ o. o.pk) (order_is pk) (λ o. received s (write o)) same pk s.orders
    ∙ rw (found, t) refl

Belongs-updated :
    (pk : ℕ) (test : Item → Bool) (write : Item → Item) (o : Option Item)
    → ((i : Item) → (write i).order_id ≡ i.order_id)
    → Belongs pk o
    → Belongs pk (updated (λ i. i.pk) test write o)
Belongs-updated pk test write none same b = tt
Belongs-updated pk test write (some i) same b = elim (Bool-cases (test i)) [
  | inl t ↦ rw t (same i ∙ b)
  | inr f ↦ rw f b
]

pub save_items-Frame :
    (pk : ℕ) (test : Item → Bool) (write : Item → Item) (s : Store)
    → ((i : Item) → (write i).pk ≡ i.pk)
    → ((i : Item) → (write i).order_id ≡ i.order_id)
    → ((k : ℕ) (i : Item) → item_row k s.items ≡ some i → test i ≡ true → i.order_id ≡ pk)
    → Frame pk s (save_items test write s)
unfolding save_items
save_items-Frame pk test write s same same_order only = (λ k d. refl, items)
  where
    items : ItemFrame pk s.items (update_where test write s.items)
    items k = elim (Option-cases (item_row k s.items)) [
      | inl n ↦
          inl
            (row-update_other (λ i. i.pk) test write same k s.items (λ i e. absurd (ground arith)))
      | inr (i, e) ↦ elim (Bool-cases (test i)) [
        | inr f ↦ inl (
            row-update_other (λ i. i.pk) test write same k s.items
              (λ j d. let q : i ≡ j = ground arith in subst (λ (x : Item). test x ≡ false) q f))
        | inl t ↦
            let b : Belongs pk (item_row k s.items) = rw e (only k i e t) in
            inr (
              b,
              rw (row-update_where (λ i. i.pk) test write same k s.items)
                  (Belongs-updated pk test write (item_row k s.items) same_order b),
            )
      ]
    ]

pub notify-SameRows : (n : Notice) (s : Store) → SameRows s (notify n s)
unfolding notify
notify-SameRows n s = (refl, refl)

-- New items of the order at the end of the table.
pub append-ItemFrame :
    (pk : ℕ) (xs ys : List Item)
    → ((k : ℕ) → Belongs pk (item_row k ys))
    → ItemFrame pk xs (xs ++ ys)
append-ItemFrame pk xs ys own k = elim (Option-cases (item_row k xs)) [
  | inr (i, e) ↦ inl (row-append_old (λ i. i.pk) k xs ys i e ∙ sym e)
  | inl n ↦ inr (rw n tt, rw (row-append_new (λ i. i.pk) k xs ys n) (own k))
]
