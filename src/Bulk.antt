-- ===== src/Bulk.antt =====
-- serializers/records.py, `RRsetListSerializer.update`: a list of RR sets is created, changed and
-- deleted in one request.
pub mod Steps
pub mod Index
pub mod Loops
pub mod Partition
pub mod Making
pub mod Refinement
pub mod Single
use desec_stack.Common.{
  ℕ, ◌+◌, String, Bool, true, false, not, ◌&&◌, Option, none, some, List, [], ◌∷◌, ◌++◌, map, arith,
  if◌then◌else◌, ◌==◌, nat_eq, string_eq, pair_eq, Result, ok, err, ◌>>=◌, ◌>>◌, raise_if, keep,
  any, is_empty, union, difference, intersection, to_set, Dict, get, put, keys,
}
use desec_stack.Db.{Item, RRset, Db, DbError, is_at, the_only, rrsets_at, insert_rrset}
use desec_stack.Tracker.{Signal, rr_saved, rr_deleted, rr_set_saved, rr_set_deleted}
use desec_stack.Records.{RecordError, save_records}

-- One element of `validated_data`.
pub record Data : Type 0 where
  pub item : Item
  pub ttl : Option ℕ
  pub records : Option (List String)

-- `ttl_missing` is the ValidationError of the model's `full_clean`.
pub data BulkError : Type 0 where
  value_error key_error ttl_missing : BulkError
  database : DbError → BulkError
  record_content : List RecordError → BulkError

-- the database behind a step, and the signals of the step
abbrev pub Effect : Type 0
Effect = Db × List Signal

abbrev pub from_db : {A : Type 0} → Result DbError A → Result BulkError A
from_db (ok a) = ok a
from_db (err e) = err (database e)

abbrev pub from_records : {A : Type 0} → Result (List RecordError) A → Result BulkError A
from_records (ok a) = ok a
from_records (err e) = err (record_content e)

abbrev pub required : {A : Type 0} → Option A → BulkError → Result BulkError A
required none e = err e
required (some a) e = ok a

-- The row of the RR set is written.
abbrev pub replace_if : RRset → Bool → RRset → RRset
replace_if new true r = new
replace_if new false r = r

unfoldable pub write_row : RRset → Db → Db
write_row new db = record db {
  rrsets = map (λ r. replace_if new (is_at new.domain new.item r) r) db.rrsets;
}

-- `RRset.delete`: the contents go with the row.
unfoldable pub delete_row : RRset → Db → Effect
delete_row r db = (
  record db { rrsets = keep (λ x. not (is_at r.domain r.item x)) db.rrsets },
  map (λ c. rr_deleted (some (r.domain, r.item))) r.records ++ rr_set_deleted r.domain r.item ∷ [],
)

-- the row that `RRset.objects.create` adds, without contents
abbrev pub new_row : String → Item → ℕ → RRset
new_row name item ttl = record { domain = name; item = item; ttl = ttl; records = [] }

module _ (canonical : String → String → Option String) where
  -- `_set_all_record_contents`
  unfoldable pub set_all_record_contents : RRset → List String → Db → Result BulkError Effect
  unfolding save_records write_row
  set_all_record_contents r records db = do
    saved ← from_records (save_records canonical r records)
    ok (write_row saved.0 db, saved.1)

  -- `RRsetSerializer.create`
  unfoldable pub create : String → Data → Db → Result BulkError Effect
  unfolding insert_rrset set_all_record_contents
  create name d db = do
    records ← required d.records key_error
    ttl ← required d.ttl ttl_missing
    inserted ← from_db (insert_rrset (new_row name d.item ttl) db)
    done ← set_all_record_contents (new_row name d.item ttl) records inserted
    ok (done.0, rr_set_saved name d.item true ∷ done.1)

  -- the part of `update` that sets the records, if they are given: the row and the signals
  unfoldable pub new_records : RRset → Option (List String) → Result BulkError (RRset × List Signal)
  unfolding save_records
  new_records r none = ok (r, [])
  new_records r (some records) = from_records (save_records canonical r records)

  -- `ttl and instance.ttl != ttl`
  abbrev pub ttl_differs : RRset → Option ℕ → Bool
  ttl_differs r none = false
  ttl_differs r (some ttl) = not (ttl == 0) && not (r.ttl == ttl)

  abbrev pub new_ttl : RRset → Option ℕ → ℕ
  new_ttl r none = r.ttl
  new_ttl r (some ttl) = if ttl_differs r (some ttl) then ttl else r.ttl

  -- `RRsetSerializer.update`; the field `touched` is not modelled
  unfoldable pub update : RRset → Data → Db → Result BulkError Effect
  unfolding new_records write_row
  update r d db = do
    changed ← new_records r d.records
    ok (
      write_row (record changed.0 { ttl = new_ttl r d.ttl }) db,
      changed.1 ++ (if ttl_differs r d.ttl then rr_set_saved r.domain r.item false ∷ [] else []),
    )

-- `is_empty` of `RRsetListSerializer.update`
abbrev pub is_empty_data : Data → Bool
is_empty_data d = elim d.records [ none ↦ false | some rs ↦ is_empty rs ]

-- `{key(d): d for d in validated_data}`
unfoldable pub index_data : List Data → Dict Item Data → Dict Item Data
unfolding put
index_data [] found = found
index_data (d ∷ ds) found = index_data ds (put d.item d found)

abbrev pub row_items : List RRset → List Item
row_items rows = to_set (map (λ r. r.item) rows)

-- The RR sets that are there under the keys of the data: `instance.filter(query)`.
unfoldable pub known_items : String → List Data → Db → List Item
unfolding to_set
known_items name given db =
    row_items (keep (λ r. r.domain == name && any (λ d. d.item == r.item) given) db.rrsets)

-- The sets of keys of `RRsetListSerializer.update`; the fourth one is not used.
pub record Parts : Type 0 where
  pub created : List Item
  pub updated : List Item
  pub deleted : List Item

unfoldable pub parts : List Item → List Item → List Item → Parts
unfolding union difference intersection
parts known referred empty =
    let everything = union known referred in
    let unknown = difference everything known in
    let nonempty = difference everything empty in
    record {
      created = intersection unknown nonempty;
      updated = intersection known nonempty;
      deleted = intersection known empty;
    }

-- A loop over a set of keys, in some order.
unfoldable pub each :
    (Item → Db → Result BulkError Effect) → List Item → Db → Result BulkError Effect
each step [] db = ok (db, [])
each step (i ∷ items) db = do
  first ← step i db
  rest ← each step items first.0
  ok (rest.0, first.1 ++ rest.1)

-- The bodies of the three loops. An instance stands for its row.
unfoldable pub delete_at : String → Item → Db → Result BulkError Effect
unfolding the_only rrsets_at delete_row
delete_at name i db = do r ← from_db (the_only (rrsets_at name i db.rrsets)); ok (delete_row r db)

module _ (canonical : String → String → Option String) (name : String) where
  unfoldable pub create_at : Dict Item Data → Item → Db → Result BulkError Effect
  unfolding create get
  create_at index i db = do d ← required (get i index) key_error; create canonical name d db

  unfoldable pub update_at : Dict Item Data → Item → Db → Result BulkError Effect
  unfolding the_only rrsets_at update get
  update_at index i db = do
    r ← from_db (the_only (rrsets_at name i db.rrsets))
    d ← required (get i index) key_error
    update canonical r d db

  -- `RRsetListSerializer.update`
  unfoldable pub update_all : List Data → Db → Result BulkError Effect
  unfolding index_data known_items keys parts difference to_set each delete_at create_at update_at
  update_all given db = do
    let index = index_data given []
    let known = known_items name given db
    raise_if (not (is_empty (difference known (keys index)))) value_error
    let empty = to_set (map (λ d. d.item) (keep is_empty_data given))
    let p = parts known (keys index) empty
    deleted ← each (delete_at name) p.deleted db
    created ← each (create_at index) p.created deleted.0
    updated ← each (update_at index) p.updated created.0
    ok (updated.0, deleted.1 ++ created.1 ++ updated.1)
