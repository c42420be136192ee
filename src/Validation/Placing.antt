-- ===== src/Validation/Placing.antt =====
-- What the rows that a bulk update deletes and makes find in the database: the deletions make place,
-- and no row that is made meets one under its key or one that conflicts with it.
use desec_stack.Common.{
  ℕ, String, ◌≡◌, refl, sym, ap, ◌∙◌, ◌⊎◌, inl, inr, Bool, true, false, not, ◌&&◌, ◌||◌, Option,
  some, List, [], ◌∷◌, map, arith, if◌then◌else◌, Bool-cases, differ, ◌==◌, ==_iff, ==_refl, nat_eq,
  string_eq, pair_eq, option_eq, Result, ok, err, ◌>>◌, >>=-eq-ok, >>=-eq-err, keep, any, is_empty,
  In, In-map_inv, keep-In, In-any, In-member, member-In, member, member-to_set, is_distinct, get,
}
use desec_stack.Bulk.{
  Data, key_error, Effect, required, new_row, is_empty_data, each, delete_at, create_at,
}
use desec_stack.Validation.{types_at}
use desec_stack.Db.{Item, RRset, Db, is_at, rrsets_at, exists_at, conflicts_with}
use desec_stack.Bulk.Index.{items_of_data, index-In, empty-other}
use desec_stack.Bulk.Steps.{required-some, delete_at-rows, create-rows}
use desec_stack.Bulk.Loops.{each_other, each-Taken}
use desec_stack.Bulk.Making.{index, in_index, delete_at-Frames}
use desec_stack.Bulk.Refinement.{
  empty_items, sets, sets-apart, member-sets, in_referred, deleted-at, created-at, stands,
}
use desec_stack.Validation.Uniqueness.{key_of}
use desec_stack.Validation.Exclusivity.{IsExclusive}
use desec_stack.Validation.Errors.{broken, required-unbroken, create-broken}

nothing_found : (i : Item) (d : Data) → get i [] ≡ some d → ⊥
unfolding get
nothing_found i d h = ground arith

-- there is a row under the key
pub has_row : String → Item → Db → Bool
has_row name i db = not (is_empty (rrsets_at name i db.rrsets))

has_row-In :
    (name : String) (r : RRset) (rs : List RRset)
    → In r rs
    → (r.domain == name) ≡ true
    → not (is_empty (rrsets_at name r.item rs)) ≡ true
unfolding rrsets_at
has_row-In name r rs i h =
    let found = keep-In (is_at name r.item) r rs i (ground (arith, ==_refl r.item)) in
    nonempty (keep (is_at name r.item) rs) found
  where
    nonempty : (xs : List RRset) → In r xs → not (is_empty xs) ≡ true
    nonempty [] k = absurd k
    nonempty (x ∷ xs) k = refl

has_row-types_at :
    (name s t : String) (db : Db)
    → has_row name (t, s) db ≡ true
    → member t (types_at name (some s) db) ≡ true
unfolding has_row types_at rrsets_at keep member
has_row-types_at name s t db h = in_rows db.rrsets h
  where
    in_rows :
        (rs : List RRset)
        → not (is_empty (keep (is_at name (t, s)) rs)) ≡ true
        → member t (map (λ r. r.item.0) (keep (λ r. r.domain == name && r.item.1 == s) rs)) ≡ true
    in_rows [] k = absurd (ground arith)
    in_rows (r ∷ rs) k = ground (arith, in_rows rs, ==_iff t r.item.0, ==_iff r.item.0 t)

row_there :
    (name : String) (r : RRset) (now : Db)
    → In r now.rrsets
    → (r.domain == name) ≡ true
    → has_row name r.item now ≡ true
unfolding has_row
row_there name r now a e = has_row-In name r now.rrsets a e

first_member : (x : Item) (xs : List Item) → member x (x ∷ xs) ≡ true
first_member x xs = member-In x (x ∷ xs) (inl refl)

emptied-any :
    (s t : String) (ds : List Data)
    → any (λ e. key_of e.item == (some s, some t) && is_empty_data e) ds ≡ true
    → member (t, s) (items_of_data (keep is_empty_data ds)) ≡ true
unfolding member keep
emptied-any s t [] h = absurd (ground arith)
emptied-any s t (d ∷ ds) h = ground (
  arith,
  emptied-any s t ds,
  ==_iff d.item.0 t,
  ==_iff d.item.1 s,
  ==_iff t d.item.0,
  ==_iff s d.item.1,
)

module _ (canonical : String → String → Option String) (name : String) (given : List Data)
    (db : Db) where
  -- While the rows are made: the rows that are there were there before and are not emptied, or have
  -- been made already.
  pub record IsMade (remaining : List Item) (now : Db) : Type 0 where
    pub rows :
        (i : Item)
        → has_row name i now ≡ true
        → ((has_row name i db && not (member i (empty_items canonical name given db)))
            || (member i (sets canonical name given db).created && not (member i remaining)))
          ≡ true
    pub apart : is_distinct remaining ≡ true
    pub planned :
        (i : Item)
        → member i remaining ≡ true
        → member i (sets canonical name given db).created ≡ true

  pub create_at-IsMade :
      (i : Item) (items : List Item) (now : Db) (c : Effect)
      → IsMade (i ∷ items) now
      → create_at canonical name (index canonical name given) i now ≡ ok c
      → IsMade items c.0
  unfolding create_at has_row member is_distinct
  create_at-IsMade i items now c v h =
      let (d, e, k) = >>=-eq-ok (required (get i (index canonical name given)) key_error) _ h in
      let (new, w, rows) = create-rows canonical name d now c k in
      let z : d.item ≡ i = in_index canonical name given i d (required-some _ _ e) in
      let p = v.planned i (ground (arith, ==_refl i)) in
      let a = v.apart in
      let n : member i items ≡ false = ground arith in
      record {
        rows = λ j q.
            at_key j (new ∷ [])
              (rows j ∙ ap (λ x. if j == x then new ∷ [] else rrsets_at name j now.rrsets) z)
              (v.rows j) p n q;
        apart = ground arith;
        planned = λ j m. v.planned j (ground arith);
      }
    where
      at_key :
          (j : Item) (made : List RRset)
          → rrsets_at name j c.0.rrsets ≡ (if j == i then made else rrsets_at name j now.rrsets)
          → (not (is_empty (rrsets_at name j now.rrsets)) ≡ true
              → ((not (is_empty (rrsets_at name j db.rrsets))
                    && not (member j (empty_items canonical name given db)))
                  || (member j (sets canonical name given db).created
                      && not (j == i || member j items)))
                ≡ true)
          → member i (sets canonical name given db).created ≡ true
          → member i items ≡ false
          → not (is_empty (rrsets_at name j c.0.rrsets)) ≡ true
          → ((not (is_empty (rrsets_at name j db.rrsets))
                && not (member j (empty_items canonical name given db)))
              || (member j (sets canonical name given db).created && not (member j items)))
            ≡ true
      at_key j made r old p n q = elim (Bool-cases (j == i)) [
        | inl e ↦
            (let z : j ≡ i = (==_iff j i).0 e in
              let p' : member j (sets canonical name given db).created ≡ true =
                ap (λ x. member x (sets canonical name given db).created) z ∙ p in
              let n' : member j items ≡ false = ap (λ x. member x items) z ∙ n in ground arith)
        | inr e ↦
            (let same : rrsets_at name j c.0.rrsets ≡ rrsets_at name j now.rrsets = ground arith in
              let o = old (ap (λ xs. not (is_empty xs)) (sym same) ∙ q) in ground arith)
      ]

  -- The rows that are there conflict with none that is still to be made.
  module _ (apart : is_distinct (items_of_data given) ≡ true)
      (exclusive : IsExclusive name db given) where
    abbrev is_empty_at : Item → Bool
    is_empty_at i = member i (empty_items canonical name given db)

    planned-empty :
        (i : Item)
        → member i (sets canonical name given db).created ≡ true
        → (is_empty_at i ≡ false)
          × (member i (items_of_data given) ≡ true)
          × (has_row name i db ≡ false)
    unfolding has_row
    planned-empty i h =
        let a = created-at canonical name given db i in
        let b = member-sets canonical name given db i in
        let c = in_referred canonical name given db i in (ground arith, ground arith, ground arith)

    -- a row that was there before and stays
    stays-beside :
        (d : Data) (t s : String)
        → In d given
        → is_empty_data d ≡ false
        → d.item.1 ≡ s
        → differ (t == "CNAME") (d.item.0 == "CNAME") ≡ true
        → has_row name (t, s) db ≡ true
        → is_empty_at (t, s) ≡ true
    stays-beside d t s i n z c h =
        let m : member t (types_at name (some d.item.1) db) ≡ true =
          ap (λ x. member t (types_at name (some x) db)) z ∙ has_row-types_at name s t db h in
        let b = exclusive.beside d t i n m c in
        let b' : any (λ e. key_of e.item == (some s, some t) && is_empty_data e) given ≡ true =
          ap (λ x. any (λ e. key_of e.item == (some x, some t) && is_empty_data e) given) (sym z)
          ∙ b in
        member-to_set (t, s) (items_of_data (keep is_empty_data given)) ∙ emptied-any s t given b'

    -- a row that has been made before
    made-among :
        (d : Data) (i : Item)
        → In d given
        → is_empty_data d ≡ false
        → d.item.1 ≡ i.1
        → differ (i.0 == "CNAME") (d.item.0 == "CNAME") ≡ true
        → member i (sets canonical name given db).created ≡ true
        → ⊥
    made-among d i j n z c h =
        let (full, m, _) = planned-empty i h in
        let (e, k, q) =
          In-map_inv (λ (x : Data). x.item) i given (In-member i (items_of_data given) m) in
        let (_, blank) = stands canonical name given db apart e k in
        let x =
          exclusive.among d e j k (z ∙ ap (λ (y : Item). y.1) q)
            (ap (λ (y : Item). differ (y.0 == "CNAME") (d.item.0 == "CNAME")) (sym q) ∙ c) n in
        let w : member e.item (empty_items canonical name given db) ≡ false =
          ap (λ y. member y (empty_items canonical name given db)) (sym q) ∙ full in
        ground arith

    pub create_at-unbroken :
        (i : Item) (items : List Item) (now : Db)
        → IsMade (i ∷ items) now
        → create_at canonical name (index canonical name given) i now ≡ err broken
        → ⊥
    unfolding create_at
    create_at-unbroken i items now v h =
        elim (>>=-eq-err (required (get i (index canonical name given)) key_error) _ h) [
          | inl e ↦
              required-unbroken (get i (index canonical name given)) key_error (λ q. ground arith) e
          | inr (d, e, k) ↦
              (let found = required-some (get i (index canonical name given)) key_error e in
                let z : d.item ≡ i = in_index canonical name given i d found in
                let there : In d given = elim (index-In i d given [] found) [
                  | inl j ↦ j
                  | inr j ↦ absurd (nothing_found i d j)
                ] in
                let (ttl, b) = create-broken canonical name d now k in blocked d z there ttl b)
        ]
      where
        blocked :
            (d : Data)
            → d.item ≡ i
            → In d given
            → (ttl : ℕ)
            → (exists_at name d.item now.rrsets
                || any (conflicts_with (new_row name d.item ttl)) now.rrsets)
              ≡ true
            → ⊥
        blocked d z j ttl b =
            let p : member i (sets canonical name given db).created ≡ true =
              v.planned i (first_member i items) in
            let (full, m, absent_before) = planned-empty i p in
            let (_, blank) = stands canonical name given db apart d j in
            let n : is_empty_data d ≡ false = sym blank ∙ ap is_empty_at z ∙ full in
            elim (Bool-cases (exists_at name d.item now.rrsets)) [
              | inl e ↦
                  (let (r, a, q) = In-any (is_at name d.item) now.rrsets e in
                    let w : r.item ≡ i = (==_iff r.item d.item).0 (ground arith) ∙ z in
                    let here : has_row name i now ≡ true =
                      ap (λ x. has_row name x now) (sym w)
                      ∙ row_there name r now a (ground arith) in
                    let o = v.rows i here in let f = first_member i items in ground arith)
              | inr e ↦
                  (let (r, a, q) =
                      In-any (conflicts_with (new_row name d.item ttl)) now.rrsets (ground arith) in
                    conflict_with_row d j n r a q)
            ]
          where
            conflict_with_row :
                (d : Data)
                → In d given
                → is_empty_data d ≡ false
                → (r : RRset) → In r now.rrsets
                → conflicts_with (new_row name d.item ttl) r ≡ true
                → ⊥
            conflict_with_row d j n r a q =
                let same_name : r.item.1 ≡ d.item.1 = (==_iff r.item.1 d.item.1).0 (ground arith) in
                let c : differ (r.item.0 == "CNAME") (d.item.0 == "CNAME") ≡ true = ground arith in
                let o = v.rows r.item (row_there name r now a (ground arith)) in
                elim (Bool-cases (
                  has_row name r.item db
                  && not (member r.item (empty_items canonical name given db)))) [
                    | inl e ↦
                        (let k =
                            stays-beside d r.item.0 r.item.1 j n (sym same_name) c (ground arith) in
                          ground arith)
                    | inr e ↦ made-among d r.item j n (sym same_name) c (ground arith)
                  ]

    -- behind the deletions
    pub deleted-IsMade :
        (c : Effect)
        → each (delete_at name) (sets canonical name given db).deleted db ≡ ok c
        → IsMade (sets canonical name given db).created c.0
    unfolding has_row
    deleted-IsMade c h = record {
      rows = λ i q. left i q;
      apart = (sets-apart canonical name given db).1;
      planned = λ i m. m;
    }
      where
        left :
            (i : Item)
            → not (is_empty (rrsets_at name i c.0.rrsets)) ≡ true
            → ((not (is_empty (rrsets_at name i db.rrsets)) && not (is_empty_at i))
                || (member i (sets canonical name given db).created
                    && not (member i (sets canonical name given db).created)))
              ≡ true
        left i q = elim (Bool-cases (member i (sets canonical name given db).deleted)) [
          | inl e ↦
              (let t =
                  each-Taken name (delete_at name) (delete_at-Frames canonical name)
                    (sets canonical name given db).deleted i db c h
                    (sets-apart canonical name given db).0 e in
                let gone = t.behind ∙ delete_at-rows name i i t.start t.done t.taken in
                ground (arith, gone, ==_refl i))
          | inr e ↦
              (let same =
                  each_other name (delete_at name) (delete_at-Frames canonical name)
                    (sets canonical name given db).deleted i db c h e in
                let k = deleted-at canonical name given db i in
                let m = member-sets canonical name given db i in
                let u = member-to_set i (items_of_data (keep is_empty_data given)) in
                let w = empty-other i given in
                let here : not (is_empty (rrsets_at name i db.rrsets)) ≡ true =
                  ap (λ xs. not (is_empty xs)) (sym same) ∙ q in
                ground arith)
        ]

pub >>-eq-err :
    {E B : Type 0} (r : Result E (Unit {0})) (next : Result E B) {e : E}
    → (r >> next) ≡ err e
    → (r ≡ err e) ⊎ (next ≡ err e)
>>-eq-err (err f) next h = inl (ground arith)
>>-eq-err (ok u) next h = inr h
