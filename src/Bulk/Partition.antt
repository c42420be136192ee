-- ===== src/Bulk/Partition.antt =====
-- The sets of keys of a bulk update: their members, and that none names a key twice.
use desec_stack.Common.{
  String, ◌≡◌, refl, ap, true, not, ◌&&◌, List, [], ◌∷◌, map, arith, ◌==◌, ==_iff, nat_eq,
  string_eq, pair_eq, keep, any, is_empty, member, union, difference, intersection, member-keep,
  member-union, member-difference, member-intersection, is_distinct, is_distinct-keep,
  is_distinct-append, is_distinct-to_set,
}
use desec_stack.Db.{Item, RRset, Db, rrsets_at}
use desec_stack.Bulk.{Data, known_items, parts}
use desec_stack.Bulk.Index.{items_of_data}

any-items : (j : Item) (ds : List Data) → any (λ d. d.item == j) ds ≡ member j (items_of_data ds)
unfolding member
any-items j [] = refl
any-items j (d ∷ ds) = ground (arith, any-items j ds, ==_iff d.item j, ==_iff j d.item)

-- A key is known exactly if the data name it and there is a row.
pub known-rows :
    (name : String) (i : Item) (given : List Data) (rs : List RRset)
    → member i
        (map (λ r. r.item) (keep (λ r. r.domain == name && any (λ d. d.item == r.item) given) rs))
      ≡ (member i (items_of_data given) && not (is_empty (rrsets_at name i rs)))
unfolding rrsets_at keep member
known-rows name i given [] = ground arith
known-rows name i given (r ∷ rs) = ground (
  arith,
  known-rows name i given rs,
  any-items r.item given,
  ==_iff i r.item,
  ==_iff r.item i,
  ap (λ (y : Item). member y (items_of_data given)),
)

pub member-parts :
    (i : Item) (known referred empty : List Item)
    → (member i (parts known referred empty).deleted ≡ (member i known && member i empty))
      × (member i (parts known referred empty).created
          ≡ (not (member i known) && member i referred && not (member i empty)))
      × (member i (parts known referred empty).updated ≡ (member i known && not (member i empty)))
unfolding parts
member-parts i known referred empty =
    let everything = union known referred in
    let a = member-union i known referred in
    let b = member-difference i everything known in
    let c = member-difference i everything empty in
    (
      ground (arith, member-intersection i known empty),
      ground (
        arith,
        a,
        b,
        c,
        member-intersection i (difference everything known) (difference everything empty),
      ),
      ground (arith, a, c, member-intersection i known (difference everything empty)),
    )

pub parts-apart :
    (known referred empty : List Item)
    → is_distinct known ≡ true
    → is_distinct referred ≡ true
    → (is_distinct (parts known referred empty).deleted ≡ true)
      × (is_distinct (parts known referred empty).created ≡ true)
      × (is_distinct (parts known referred empty).updated ≡ true)
unfolding parts union difference intersection
parts-apart known referred empty h k =
    let rest = is_distinct-keep (λ x. not (member x known)) referred k in
    let everything =
      is_distinct-append known (keep (λ x. not (member x known)) referred) h rest
        (λ x m. ground (arith, member-keep x (λ y. not (member y known)) referred)) in
    let unknown = is_distinct-keep (λ x. not (member x known)) (union known referred) everything in
    (
      is_distinct-keep (λ x. member x empty) known h,
      is_distinct-keep (λ x. member x (difference (union known referred) empty))
          (difference (union known referred) known) unknown,
      is_distinct-keep (λ x. member x (difference (union known referred) empty)) known h,
    )

pub known_items-apart :
    (name : String) (given : List Data) (db : Db) → is_distinct (known_items name given db) ≡ true
unfolding known_items
known_items-apart name given db = is_distinct-to_set (
    map (λ r. r.item) (keep (λ r. r.domain == name && any (λ d. d.item == r.item) given) db.rrsets))
