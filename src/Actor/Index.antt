-- ===== src/Actor/Index.antt =====
-- `#subscriptionIndex` of packages/rivetkit/src/actor/instance.ts: the connections subscribed to
-- each event, with the updates that `#addSubscription` and `#removeSubscription` make.
use rivetkit.Base.{
  ℕ, ◌≡◌, ◌≢◌, not, ◌&&◌, ◌||◌, none, some, List, [], ◌∷◌, arith, ◌==◌, if◌then◌else◌, Dict, lookup,
  insert, erase, lookup-insert, lookup-erase, has, add, remove, has-add, has-remove, has-is_empty,
  is_empty, Option-cases, inl, inr,
}

abbrev pub Index : Type 0
Index = Dict (List ℕ)

-- The subscribers of an event; there are none where the event has no entry.
unfoldable pub subscribers : ℕ → Index → List ℕ
subscribers event index = elim (lookup event index) [ none ↦ [] | some conns ↦ conns ]

unfoldable pub index_add : ℕ → ℕ → Index → Index
unfolding subscribers
index_add event conn index = insert event (add conn (subscribers event index)) index

unfoldable pub index_remove : ℕ → ℕ → Index → Index
index_remove event conn index = elim (lookup event index) [
  | none ↦ index
  | some conns ↦
      let left = remove conn conns in
      if is_empty left then erase event index else insert event left index
]

pub has-subscribers-index_add :
    (x j event conn : ℕ) (index : Index)
    → has x (subscribers j (index_add event conn index))
      ≡ ((event == j) && (conn == x) || has x (subscribers j index))
unfolding subscribers index_add
has-subscribers-index_add x j event conn index = ground (
  arith,
  lookup-insert j event (add conn (subscribers event index)) index,
  has-add x conn (subscribers event index),
)

pub has-subscribers-index_remove :
    (x j event conn : ℕ) (index : Index)
    → has x (subscribers j (index_remove event conn index))
      ≡ (not ((event == j) && (conn == x)) && has x (subscribers j index))
unfolding subscribers index_remove
has-subscribers-index_remove x j event conn index = elim (Option-cases (lookup event index)) [
  | inl e ↦ ground arith
  | inr (conns, e) ↦ ground (
    arith,
    lookup-insert j event (remove conn conns) index,
    lookup-erase j event index,
    has-remove x conn conns,
    has-is_empty x (remove conn conns),
  )
]

-- No event has an entry with no subscriber.
abbrev pub HasNoEmpty : Index → Type 0
HasNoEmpty index = (event : ℕ) → lookup event index ≢ some []

add-ne-nil : (a : ℕ) (xs : List ℕ) → add a xs ≢ []
add-ne-nil a [] e = cc
add-ne-nil a (x ∷ xs) e = ground arith

pub index_add-HasNoEmpty :
    (event conn : ℕ) (index : Index) → HasNoEmpty index → HasNoEmpty (index_add event conn index)
unfolding index_add
index_add-HasNoEmpty event conn index h j e = ground (
  arith,
  h j,
  lookup-insert j event (add conn (subscribers event index)) index,
  add-ne-nil conn (subscribers event index),
)

pub index_remove-HasNoEmpty :
    (event conn : ℕ) (index : Index) → HasNoEmpty index → HasNoEmpty (index_remove event conn index)
unfolding index_remove
index_remove-HasNoEmpty event conn index h j e = elim (Option-cases (lookup event index)) [
  | inl p ↦ ground (arith, h j)
  | inr (conns, p) ↦
      ground
        (arith, h j, lookup-insert j event (remove conn conns) index, lookup-erase j event index)
]
