-- ===== src/Validation/Integrity.antt =====
-- A bulk update of a list that has passed breaks no constraint of the database.
use desec_stack.Common.{
  all, ℕ, String, ◌≡◌, ◌≢◌, inl, inr, Bool, true, false, not, Option, List, arith, nat_eq,
  string_eq, pair_eq, option_eq, Result, ok, err, raise_if, >>=-eq-err, is_empty, difference,
  is_distinct, keys,
}
use desec_stack.Bulk.{
  Data, BulkError, value_error, database, known_items, each, delete_at, create_at, update_at,
  update_all,
}
use desec_stack.Validation.{RecordsField, Element, Key, to_internal_value}
use desec_stack.Db.{Item, Db, integrity_error}
use desec_stack.Bulk.Index.{items_of_data}
use desec_stack.Bulk.Making.{index}
use desec_stack.Bulk.Refinement.{sets}
use desec_stack.Validation.Trimmed.{
  RunValidation, is_trimmed, IsTrimming, refuse_untrimmed, refuse_untrimmed-IsKeeping,
  to_internal_value-trimmed,
}
use desec_stack.Validation.Uniqueness.{IsKeeping, to_internal_value-distinct}
use desec_stack.Validation.Exclusivity.{IsExclusive, to_internal_value-IsExclusive_kept}
use desec_stack.Validation.Errors.{broken, each_unbroken, delete_at-unbroken, update_at-unbroken}
use desec_stack.Validation.Placing.{
  >>-eq-err, IsMade, create_at-IsMade, create_at-unbroken, deleted-IsMade,
}

raise_if-unbroken : (b : Bool) (e : BulkError) → e ≢ broken → raise_if b e ≡ err broken → ⊥
raise_if-unbroken true e n h = n (ground arith)
raise_if-unbroken false e n h = ground arith

-- A bulk update of data that name no RR set twice and bring no CNAME beside another type never breaks
-- a uniqueness or exclusivity constraint of the database, whatever the rows are: the deletions come
-- first, and a row that is made finds neither one in its place nor one that conflicts with it.
pub update_all-unbroken :
    (canonical : String → String → Option String) (name : String) (given : List Data) (db : Db)
    → is_distinct (items_of_data given) ≡ true
    → IsExclusive name db given
    → update_all canonical name given db ≢ err (database integrity_error)
unfolding update_all
update_all-unbroken canonical name given db apart exclusive h =
    elim (>>-eq-err
      (raise_if
        (not
          (is_empty (difference (known_items name given db) (keys (index canonical name given)))))
        value_error)
      _ h) [
        | inl e ↦
            raise_if-unbroken
              (not (
                is_empty
                  (difference (known_items name given db) (keys (index canonical name given)))))
              value_error (λ q. ground arith) e
        | inr k ↦
            elim (>>=-eq-err (each (delete_at name) (sets canonical name given db).deleted db) _
              k) [
                | inl e ↦
                    each_unbroken (delete_at name) (λ is now. Unit {0}) (λ i is now c v e. tt)
                      (λ i is now v e. delete_at-unbroken name i now e)
                      (sets canonical name given db).deleted db tt e
                | inr (c, e, l) ↦
                    elim (>>=-eq-err
                      (each (create_at canonical name (index canonical name given))
                        (sets canonical name given db).created c.0)
                      _ l) [
                        | inl f ↦
                            each_unbroken (create_at canonical name (index canonical name given))
                              (IsMade canonical name given db)
                              (λ i is now x v g.
                                create_at-IsMade canonical name given db i is now x v g)
                              (λ i is now v g.
                                create_at-unbroken canonical name given db apart exclusive i is now
                                  v g)
                              (sets canonical name given db).created c.0
                              (deleted-IsMade canonical name given db apart exclusive c e) f
                        | inr (x, f, m) ↦
                            elim (>>=-eq-err
                              (each (update_at canonical name (index canonical name given))
                                (sets canonical name given db).updated x.0)
                              _ m) [
                                | inl g ↦
                                    each_unbroken
                                      (update_at canonical name (index canonical name given))
                                      (λ is now. Unit {0}) (λ i is now y v g. tt)
                                      (λ i is now v g.
                                        update_at-unbroken canonical name
                                          (index canonical name given) i now g)
                                      (sets canonical name given db).updated x.0 tt g
                                | inr (y, g, n) ↦ absurd (ground arith)
                              ]
                      ]
              ]
      ]

-- A list that passes the checks of `to_internal_value` is saved without breaking a constraint of the
-- database, if validating an element keeps its type, its subname and whether it has records.
pub to_internal_value-update_all_kept :
    (canonical : String → String → Option String)
    (run_validation : ℕ → Key → RecordsField → Bool → Bool → Result String Data) (name : String)
    (partial : Bool) (known : List Item) (elements : List Element) (db : Db) (ds : List Data)
    → IsKeeping run_validation
    → to_internal_value run_validation name partial known elements db ≡ ok ds
    → update_all canonical name ds db ≢ err (database integrity_error)
to_internal_value-update_all_kept canonical run_validation name partial known elements db ds keeps
      h =
    update_all-unbroken canonical name ds db
      (to_internal_value-distinct run_validation name partial known elements db ds keeps h)
      (to_internal_value-IsExclusive_kept run_validation name partial known elements db ds keeps h)

-- A list that passes the checks of `to_internal_value` is saved without breaking a constraint of the
-- database, if the subnames and types that are sent have no white space at their ends, and validating
-- an element takes white space off them and keeps whether it has records.
pub to_internal_value-update_all :
    (canonical : String → String → Option String) (trim : String → String)
    (run_validation : RunValidation) (name : String) (partial : Bool) (known : List Item)
    (elements : List Element) (db : Db) (ds : List Data)
    → IsTrimming trim run_validation
    → all (is_trimmed trim) elements ≡ true
    → to_internal_value run_validation name partial known elements db ≡ ok ds
    → update_all canonical name ds db ≢ err (database integrity_error)
to_internal_value-update_all canonical trim run_validation name partial known elements db ds trims
      trimmed h =
    to_internal_value-update_all_kept canonical (refuse_untrimmed trim run_validation) name partial
      known elements db ds (refuse_untrimmed-IsKeeping trim run_validation trims)
      (to_internal_value-trimmed trim run_validation name partial known elements db ds trimmed h)
