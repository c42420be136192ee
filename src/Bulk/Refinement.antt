-- ===== src/Bulk/Refinement.antt =====
-- `RRsetListSerializer.update` against its specification.
use desec_stack.Common.{
  String, ◌≡◌, refl, sym, ap, ◌∙◌, inl, inr, Bool, true, false, not, ◌&&◌, ◌||◌, Option, List, [],
  ◌∷◌, arith, if◌then◌else◌, Bool-cases, ◌==◌, ==_refl, nat_eq, string_eq, pair_eq, Result, ok, err,
  ◌>>◌, raise_if, >>=-eq-ok, keep, is_empty, In, In-map, member-In, member, difference, to_set,
  member-to_set, is_distinct, keys,
}
use desec_stack.Db.{Item, RRset, Db, rrsets_at}
use desec_stack.Bulk.{
  Data, value_error, Effect, is_empty_data, known_items, Parts, parts, each, delete_at, create_at,
  update_at, update_all,
}
use desec_stack.Bulk.Index.{items_of_data, member-keys-index, is_distinct-keys-index, member-empty}
use desec_stack.Bulk.Steps.{delete_at-rows}
use desec_stack.Bulk.Partition.{known-rows, known_items-apart, member-parts, parts-apart}
use desec_stack.Bulk.Loops.{each_other, each-Taken}
use desec_stack.Bulk.Making.{
  Written, created, updated, IsUpdated, delete_at-Frames, index, create_at-Frames, update_at-Frames,
  create_at-made, update_at-made,
}

>>-eq-ok :
    {E B : Type 0} (r : Result E (Unit {0})) (next : Result E B) {b : B}
    → (r >> next) ≡ ok b
    → next ≡ ok b
>>-eq-ok (err e) next h = absurd (ground arith)
>>-eq-ok (ok u) next h = h

module _ (canonical : String → String → Option String) (name : String) (given : List Data)
    (db : Db) where
  -- the keys of the data that are empty
  abbrev pub empty_items : List Item
  empty_items = to_set (items_of_data (keep is_empty_data given))

  abbrev pub sets : Parts
  sets = parts (known_items name given db) (keys (index canonical name given)) empty_items

  -- the three loops of an update that succeeds
  record Loops (after : Db) : Type 0 where
    deletion : Effect
    making : Effect
    change : Effect
    deleted : each (delete_at name) sets.deleted db ≡ ok deletion
    created :
        each (create_at canonical name (index canonical name given)) sets.created deletion.0
        ≡ ok making
    updated :
        each (update_at canonical name (index canonical name given)) sets.updated making.0
        ≡ ok change
    result : change.0 ≡ after

  update_all-Loops : (c : Effect) → update_all canonical name given db ≡ ok c → Loops c.0
  unfolding update_all
  update_all-Loops c h =
      let k0 =
        >>-eq-ok
          (raise_if
            (not (
              is_empty
                (difference (known_items name given db) (keys (index canonical name given)))))
            value_error)
          _ h in
      let (a, e1, k1) = >>=-eq-ok (each (delete_at name) sets.deleted db) _ k0 in
      let (b, e2, k2) =
        >>=-eq-ok (each (create_at canonical name (index canonical name given)) sets.created a.0) _
          k1 in
      let (u, e3, k3) =
        >>=-eq-ok (each (update_at canonical name (index canonical name given)) sets.updated b.0) _
          k2 in
      record {
        deletion = a;
        making = b;
        change = u;
        deleted = e1;
        created = e2;
        updated = e3;
        result = ground arith;
      }

  pub member-sets :
      (i : Item)
      → member i (known_items name given db)
        ≡ (member i (items_of_data given) && not (is_empty (rrsets_at name i db.rrsets)))
  unfolding known_items
  member-sets i = member-to_set i _ ∙ known-rows name i given db.rrsets

  pub sets-apart :
      (is_distinct sets.deleted ≡ true)
      × (is_distinct sets.created ≡ true)
      × (is_distinct sets.updated ≡ true)
  unfolding keys is_distinct
  sets-apart =
      parts-apart (known_items name given db) (keys (index canonical name given)) empty_items
        (known_items-apart name given db) (is_distinct-keys-index given [] refl)

  pub in_referred :
      (i : Item) → member i (keys (index canonical name given)) ≡ member i (items_of_data given)
  unfolding keys member
  in_referred i = member-keys-index i given [] ∙ at_end (member i (items_of_data given))
    where
      at_end : (b : Bool) → (b || member i (keys {K = Item} {V = Data} [])) ≡ b
      at_end b = ground arith

  -- where an element of the data stands
  pub stands :
      is_distinct (items_of_data given) ≡ true
      → (d : Data) → In d given
      → (member d.item (items_of_data given) ≡ true) × (member d.item empty_items ≡ is_empty_data d)
  stands apart d i = (
    member-In d.item (items_of_data given) (In-map (λ (y : Data). y.item) d given i),
    member-to_set d.item (items_of_data (keep is_empty_data given)) ∙ member-empty d given i apart,
  )

  -- the sets at a key
  pub deleted-at :
      (i : Item)
      → member i sets.deleted ≡ (member i (known_items name given db) && member i empty_items)
  deleted-at i =
      (member-parts i (known_items name given db) (keys (index canonical name given)) empty_items).0

  pub created-at :
      (i : Item)
      → member i sets.created ≡ (
          not (member i (known_items name given db))
          && member i (keys (index canonical name given))
          && not (member i empty_items))
  created-at i =
      (member-parts i (known_items name given db) (keys (index canonical name given)) empty_items).1

  updated-at :
      (i : Item)
      → member i sets.updated ≡ (member i (known_items name given db) && not (member i empty_items))
  updated-at i =
      (member-parts i (known_items name given db) (keys (index canonical name given)) empty_items).2

  module _ (after : Db) (loops : Loops after) where
    past_deletion :
        (i : Item)
        → member i sets.deleted ≡ false
        → rrsets_at name i loops.deletion.0.rrsets ≡ rrsets_at name i db.rrsets
    past_deletion i m =
        each_other name (delete_at name) (delete_at-Frames canonical name) sets.deleted i db
          loops.deletion loops.deleted m

    past_creation :
        (i : Item)
        → member i sets.created ≡ false
        → rrsets_at name i loops.making.0.rrsets ≡ rrsets_at name i loops.deletion.0.rrsets
    past_creation i m =
        each_other name _ (create_at-Frames canonical name given) sets.created i loops.deletion.0
          loops.making loops.created m

    past_change :
        (i : Item)
        → member i sets.updated ≡ false
        → rrsets_at name i after.rrsets ≡ rrsets_at name i loops.making.0.rrsets
    past_change i m =
        ap (λ (x : Db). rrsets_at name i x.rrsets) (sym loops.result)
        ∙ each_other name _ (update_at-Frames canonical name given) sets.updated i loops.making.0
            loops.change loops.updated m

    untouched :
        (i : Item)
        → member i sets.deleted ≡ false
        → member i sets.created ≡ false
        → member i sets.updated ≡ false
        → rrsets_at name i after.rrsets ≡ rrsets_at name i db.rrsets
    untouched i m n o = past_change i o ∙ past_creation i n ∙ past_deletion i m

    at_deleted :
        (i : Item)
        → member i sets.deleted ≡ true
        → member i sets.created ≡ false
        → member i sets.updated ≡ false
        → rrsets_at name i after.rrsets ≡ []
    at_deleted i m n o =
        let t =
          each-Taken name (delete_at name) (delete_at-Frames canonical name) sets.deleted i db
            loops.deletion loops.deleted sets-apart.0 m in
        past_change i o
        ∙ past_creation i n
        ∙ t.behind
        ∙ delete_at-rows name i i t.start t.done t.taken
        ∙ here (rrsets_at name i t.start.rrsets)
      where
        here : (xs : List RRset) → (if i == i then [] else xs) ≡ []
        here xs = ground (arith, ==_refl i)

    at_created :
        is_distinct (items_of_data given) ≡ true
        → (d : Data) → In d given
        → member d.item sets.deleted ≡ false
        → member d.item sets.created ≡ true
        → member d.item sets.updated ≡ false
        → rrsets_at name d.item db.rrsets ≡ []
        → Written canonical name d
            (rrsets_at name d.item db.rrsets)
            (rrsets_at name d.item after.rrsets)
    at_created apart d there m n o none_before =
        let t =
          each-Taken name _ (create_at-Frames canonical name given) sets.created d.item
            loops.deletion.0 loops.making loops.created sets-apart.1 n in
        let (new, rows, v) =
          create_at-made canonical name given apart d there t.start t.done t.taken in
        created none_before new (past_change d.item o ∙ t.behind ∙ rows) v

    at_updated :
        is_distinct (items_of_data given) ≡ true
        → (d : Data) → In d given
        → member d.item sets.deleted ≡ false
        → member d.item sets.created ≡ false
        → member d.item sets.updated ≡ true
        → Written canonical name d
            (rrsets_at name d.item db.rrsets)
            (rrsets_at name d.item after.rrsets)
    at_updated apart d there m n o =
        let t =
          each-Taken name _ (update_at-Frames canonical name given) sets.updated d.item
            loops.making.0 loops.change loops.updated sets-apart.2 o in
        let (old, before, new, rows, v) =
          update_at-made canonical name given apart d there t.start t.done t.taken in
        updated old (sym (t.before ∙ past_creation d.item n ∙ past_deletion d.item m) ∙ before) new
          (ap (λ (x : Db). rrsets_at name d.item x.rrsets) (sym loops.result) ∙ t.behind ∙ rows) v

no_rows : (xs : List RRset) → is_empty xs ≡ true → xs ≡ []
no_rows [] h = refl
no_rows (x ∷ xs) h = absurd (ground arith)

-- `RRsetListSerializer.update`, when it raises nothing and the data name no key twice, changes no row
-- of the domain that the data do not name, leaves no row under the key of an element without records,
-- and leaves one row under the key of any other element, with the TTL and contents that it gives, and
-- with those that were there where it gives none.
pub update_all-IsUpdated :
    (canonical : String → String → Option String) (name : String) (given : List Data) (db : Db)
    (c : Effect)
    → is_distinct (items_of_data given) ≡ true
    → update_all canonical name given db ≡ ok c
    → IsUpdated canonical name given db c.0
update_all-IsUpdated canonical name given db c apart h =
    let loops = update_all-Loops canonical name given db c h in
    let del = deleted-at canonical name given db in
    let cre = created-at canonical name given db in
    let upd = updated-at canonical name given db in
    let there = member-sets canonical name given db in
    let referred = in_referred canonical name given db in
    record {
      unnamed = λ i m.
          untouched canonical name given db c.0 loops i (ground (arith, del i, there i))
            (ground (arith, cre i, referred i)) (ground (arith, upd i, there i));
      emptied = λ d i e.
          (let (named, blank) = stands canonical name given db apart d i in
            let n : member d.item (sets canonical name given db).created ≡ false =
              (ground (arith, cre d.item, blank)) in
            let o : member d.item (sets canonical name given db).updated ≡ false =
              (ground (arith, upd d.item, blank)) in
            elim (Bool-cases (is_empty (rrsets_at name d.item db.rrsets))) [
              | inl z ↦
                  untouched canonical name given db c.0 loops d.item
                    (ground (arith, del d.item, there d.item)) n o
                  ∙ no_rows (rrsets_at name d.item db.rrsets) z
              | inr z ↦
                  at_deleted canonical name given db c.0 loops d.item
                    (ground (arith, del d.item, there d.item, named, blank)) n o
            ]);
      written = λ d i e.
          (let (named, blank) = stands canonical name given db apart d i in
            let m : member d.item (sets canonical name given db).deleted ≡ false =
              (ground (arith, del d.item, blank)) in
            elim (Bool-cases (is_empty (rrsets_at name d.item db.rrsets))) [
              | inl z ↦
                  at_created canonical name given db c.0 loops apart d i m
                    (ground (arith, cre d.item, there d.item, referred d.item, named, blank))
                    (ground (arith, upd d.item, there d.item))
                    (no_rows (rrsets_at name d.item db.rrsets) z)
              | inr z ↦
                  at_updated canonical name given db c.0 loops apart d i m
                    (ground (arith, cre d.item, there d.item, named))
                    (ground (arith, upd d.item, there d.item, named, blank))
            ]);
    }
