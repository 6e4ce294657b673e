-- ===== src/BillingStore/Orders.antt =====
-- The order methods of the store: what each outcome means for the order, and for all others.
use yunmao.Base.{
  String, ◌≡◌, refl, ◌≢◌, ◌⊎◌, none, some, arith, Option-cases, inl, inr, lookup,
  lookup-insert_self, lookup-insert_ne, Time,
}
use yunmao.BillingStore.{
  Order, OrderStatus, created, paid, refunded, MemoryStore, Result, ok, err, duplicate_order,
  not_found, already_paid, create_order, pay_order, mark_paid, refund, get_order,
}

-- An order that was created is read back, and a second one with its number is refused and changes
-- nothing; orders under other numbers are read as before.
pub create_order_lem :
    (s : MemoryStore) (o o' : Order) (other : String)
    → lookup o.id s.m ≡ none
    → o'.id ≡ o.id
    → o.id ≢ other
    → let (r, s') = create_order s o in
      (r ≡ ok tt)
      × (get_order s' o.id ≡ ok o)
      × (create_order s' o' ≡ (err duplicate_order, s'))
      × (get_order s' other ≡ get_order s other)
unfolding create_order get_order
create_order_lem s o o' other new same ne =
    let found = lookup-insert_self o.id o s.m in
    (
      ground arith,
      ground (arith, found),
      ground (arith, found),
      ground (arith, lookup-insert_ne o.id other o s.m ne),
    )

-- A payment reports exactly what happened to the order: the order is missing, or it is paid already,
-- and nothing changes; or it was not paid, and is now stored as paid at that instant.
abbrev pub Pays : MemoryStore → String → Time → Result Order × MemoryStore → Type 0
Pays s id t (err e, s') =
    (s' ≡ s)
    × (((e ≡ not_found) × (lookup id s.m ≡ none))
        ⊎ ((e ≡ already_paid) × ((o : Order) × (lookup id s.m ≡ some o) × (o.status ≡ paid))))
Pays s id t (ok o, s') =
    (old : Order) × (lookup id s.m ≡ some old)
    × (old.status ≢ paid)
    × (o ≡ record old { status = paid; paid_at = t; updated_at = t })
    × (lookup id s'.m ≡ some o)

pay_order-Pays :
    (s : MemoryStore) (id : String) (t : Time) (o : Order) (st : OrderStatus)
    → lookup id s.m ≡ some o
    → o.status ≡ st
    → Pays s id t (pay_order s id t o st)
unfolding pay_order
pay_order-Pays s id t o paid found e = (refl, inr (refl, (o, found, e)))
pay_order-Pays s id t o created found e = (o, found, λ p. cc, refl, lookup-insert_self id _ s.m)
pay_order-Pays s id t o refunded found e = (o, found, λ p. cc, refl, lookup-insert_self id _ s.m)

-- MarkPaid pays an order once: see `Pays`.
pub mark_paid-Pays : (s : MemoryStore) (id : String) (t : Time) → Pays s id t (mark_paid s id t)
unfolding mark_paid
mark_paid-Pays s id t = elim (Option-cases (lookup id s.m)) [
  | inl gone ↦ rw (gone, mark_paid) (refl, inl (refl, gone))
  | inr (o, found) ↦ rw (found, mark_paid) (pay_order-Pays s id t o o.status found refl)
]

-- The store follows no order through created, paid and refunded: any order that exists is refunded,
-- also one that was never paid, and a refunded order is marked paid again.
pub refund-mark_paid :
    (s : MemoryStore) (id : String) (t u : Time) (o : Order)
    → lookup id s.m ≡ some o
    → let (r, s') = refund s id t in
      let refunded_order = record o { status = refunded; refunded_at = t; updated_at = t } in
      (r ≡ ok refunded_order)
      × ((mark_paid s' id u).0
          ≡ ok (record refunded_order { status = paid; paid_at = u; updated_at = u }))
unfolding refund mark_paid
refund-mark_paid s id t u o found = (
  ground arith,
  ground (
    arith,
    lookup-insert_self id (record o { status = refunded; refunded_at = t; updated_at = t }) s.m,
  ),
)
