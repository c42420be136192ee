-- ===== src/Bulk/Index.antt =====
-- The index of the data by key, and the sets that the partition of a bulk update is made of.
use desec_stack.Common.{
  ◌≡◌, refl, sym, ap, ◌∙◌, ◌⊎◌, inl, inr, true, false, ◌||◌, some, List, [], ◌∷◌, map, arith,
  if◌then◌else◌, Bool-cases, ◌==◌, ==_iff, ==_refl, nat_eq, string_eq, pair_eq, keep, In, In-map,
  member-In, member, is_distinct, Dict, get, put, keys, get-put, member-keys-put,
  is_distinct-keys-put,
}
use desec_stack.Db.{Item}
use desec_stack.Bulk.{Data, is_empty_data, index_data}

-- the keys of the data
abbrev pub items_of_data : List Data → List Item
items_of_data ds = map (λ d. d.item) ds

index-other :
    (i : Item) (ds : List Data) (found : Dict Item Data)
    → member i (items_of_data ds) ≡ false
    → get i (index_data ds found) ≡ get i found
unfolding index_data member
index-other i [] found h = refl
index-other i (d ∷ ds) found h =
    let later = index-other i ds (put d.item d found) (ground arith) in
    ground (arith, later, get-put i d.item d found)

-- Each element of the data is found under its key.
pub index-found :
    (d : Data) (ds : List Data) (found : Dict Item Data)
    → In d ds
    → is_distinct (items_of_data ds) ≡ true
    → get d.item (index_data ds found) ≡ some d
unfolding index_data is_distinct
index-found d [] found i h = absurd i
index-found d (x ∷ ds) found (inl e) h =
    let z : d.item ≡ x.item = ap (λ (y : Data). y.item) e in
    ap (λ (y : Item). get y (index_data ds (put x.item x found))) z
    ∙ index-other x.item ds (put x.item x found) (ground arith)
    ∙ get-put x.item x.item x found
    ∙ here (==_refl x.item)
    ∙ ap some (sym e)
  where
    here :
        (x.item == x.item) ≡ true → (if x.item == x.item then some x else get x.item found) ≡ some x
    here k = rw k
index-found d (x ∷ ds) found (inr i) h = index-found d ds (put x.item x found) i (ground arith)

-- What is found under a key has that key.
pub index-item :
    (i : Item) (d : Data) (ds : List Data) (found : Dict Item Data)
    → ((e : Data) → get i found ≡ some e → e.item ≡ i)
    → get i (index_data ds found) ≡ some d
    → d.item ≡ i
unfolding index_data
index-item i d [] found h k = h d k
index-item i d (x ∷ ds) found h k = index-item i d ds (put x.item x found) (λ e l. put_item e l) k
  where
    put_item : (e : Data) → get i (put x.item x found) ≡ some e → e.item ≡ i
    put_item e l = elim (Bool-cases (i == x.item)) [
      | inl q ↦
          (let same : x ≡ e = ground (arith, get-put i x.item x found) in
            ap (λ (y : Data). y.item) (sym same) ∙ sym ((==_iff i x.item).0 q))
      | inr q ↦ h e (ground (arith, get-put i x.item x found))
    ]

pub member-keys-index :
    (i : Item) (ds : List Data) (found : Dict Item Data)
    → member i (keys (index_data ds found)) ≡ (member i (items_of_data ds) || member i (keys found))
unfolding index_data member
member-keys-index i [] found = refl
member-keys-index i (d ∷ ds) found =
    ground (arith, member-keys-index i ds (put d.item d found), member-keys-put i d.item d found)

pub is_distinct-keys-index :
    (ds : List Data) (found : Dict Item Data)
    → is_distinct (keys found) ≡ true
    → is_distinct (keys (index_data ds found)) ≡ true
unfolding index_data
is_distinct-keys-index [] found h = h
is_distinct-keys-index (d ∷ ds) found h =
    is_distinct-keys-index ds (put d.item d found) (is_distinct-keys-put d.item d found h)

-- No key but those of the data is among the empty ones.
pub empty-other :
    (i : Item) (ds : List Data)
    → member i (items_of_data ds) ≡ false
    → member i (items_of_data (keep is_empty_data ds)) ≡ false
unfolding member keep
empty-other i [] h = refl
empty-other i (d ∷ ds) h = ground (arith, empty-other i ds)

-- An element of the data is among the empty keys exactly if it is empty.
pub member-empty :
    (d : Data) (ds : List Data)
    → In d ds
    → is_distinct (items_of_data ds) ≡ true
    → member d.item (items_of_data (keep is_empty_data ds)) ≡ is_empty_data d
unfolding member keep is_distinct
member-empty d [] i h = absurd i
member-empty d (x ∷ ds) (inl e) h =
    ap (λ (y : Data). member y.item (items_of_data (keep is_empty_data (x ∷ ds)))) e
    ∙ first
    ∙ ap is_empty_data (sym e)
  where
    first : member x.item (items_of_data (keep is_empty_data (x ∷ ds))) ≡ is_empty_data x
    first = ground (arith, empty-other x.item ds, ==_refl x.item)
member-empty d (x ∷ ds) (inr i) h =
    let there = member-In d.item (items_of_data ds) (In-map (λ (y : Data). y.item) d ds i) in
    ground (
      arith,
      member-empty d ds i,
      ==_iff d.item x.item,
      ap (λ (y : Item). member y (items_of_data ds)),
    )

-- What is found is one of the data.
pub index-In :
    (i : Item) (d : Data) (ds : List Data) (found : Dict Item Data)
    → get i (index_data ds found) ≡ some d
    → In d ds ⊎ (get i found ≡ some d)
unfolding index_data
index-In i d [] found h = inr h
index-In i d (x ∷ ds) found h = elim (index-In i d ds (put x.item x found) h) [
  | inl k ↦ inl (inr k)
  | inr k ↦ elim (Bool-cases (i == x.item)) [
    | inl q ↦ (let same : x ≡ d = ground (arith, get-put i x.item x found) in inl (inl (sym same)))
    | inr q ↦ inr (ground (arith, get-put i x.item x found))
  ]
]
