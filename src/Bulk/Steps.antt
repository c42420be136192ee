-- ===== src/Bulk/Steps.antt =====
-- What one step of a bulk update makes of the rows under each key.
use desec_stack.Common.{
  ℕ, String, ◌≡◌, refl, sym, ap, ◌∙◌, inl, Bool, true, false, not, Option, none, some, List, [],
  ◌∷◌, map, arith, if◌then◌else◌, ◌==◌, ==_iff, ==_refl, nat_eq, string_eq, pair_eq, Result, ok,
  err, >>=-eq-ok, keep, any, all, In-keep, member,
}
use desec_stack.Db.{Item, RRset, Db, DbError, is_at, the_only, rrsets_at, exists_at, insert_rrset}
use desec_stack.Tracker.{Signal}
use desec_stack.Records.{RecordError, save_records}
use desec_stack.Records.Saving.{presents, is_valid_content, IsSaved, save_records-IsSaved}
use desec_stack.Bulk.{
  Data, BulkError, key_error, ttl_missing, Effect, from_db, from_records, required, replace_if,
  write_row, delete_row, new_row, set_all_record_contents, create, new_records, new_ttl, update,
  delete_at,
}

rows_written :
    (name : String) (new : RRset) (i : Item) (rs : List RRset)
    → new.domain ≡ name
    → rrsets_at name i (map (λ r. replace_if new (is_at new.domain new.item r) r) rs)
      ≡ (if i == new.item then map (λ r. new) (rrsets_at name i rs) else rrsets_at name i rs)
unfolding rrsets_at keep
rows_written name new i [] e = ground arith
rows_written name new i (r ∷ rs) e = ground (
  arith,
  rows_written name new i rs e,
  ==_iff i new.item,
  ==_iff new.item i,
  ==_iff r.item i,
  ==_iff r.item new.item,
  ==_iff r.domain name,
  ==_iff r.domain new.domain,
  ==_iff new.domain name,
  ==_refl new.item,
  ==_refl name,
)

write_row-rows :
    (name : String) (new : RRset) (i key : Item) (db : Db) (rs : List RRset)
    → new.domain ≡ name
    → new.item ≡ key
    → (write_row new db).rrsets ≡ rs
    → rrsets_at name i rs ≡ (
        if i == key
        then map (λ r. new) (rrsets_at name i db.rrsets)
        else rrsets_at name i db.rrsets)
unfolding write_row
write_row-rows name new i key db rs e f g =
    ap (rrsets_at name i) (sym g) ∙ (rw (← f) (rows_written name new i db.rrsets e))

rows_deleted :
    (name : String) (old i : Item) (rs : List RRset)
    → rrsets_at name i (keep (λ r. not (is_at name old r)) rs)
      ≡ (if i == old then [] else rrsets_at name i rs)
unfolding rrsets_at keep
rows_deleted name old i [] = ground arith
rows_deleted name old i (r ∷ rs) =
    ground (arith, rows_deleted name old i rs, ==_iff i old, ==_iff r.item i, ==_iff r.item old)

rows_none :
    (name : String) (i : Item) (rs : List RRset)
    → exists_at name i rs ≡ false
    → rrsets_at name i rs ≡ []
unfolding rrsets_at exists_at keep
rows_none name i [] h = refl
rows_none name i (r ∷ rs) h = ground (arith, rows_none name i rs)

pub rows_inserted :
    (name : String) (new : RRset) (i : Item) (db db' : Db)
    → new.domain ≡ name
    → insert_rrset new db ≡ ok db'
    → (rrsets_at name i db'.rrsets
        ≡ (if i == new.item then new ∷ [] else rrsets_at name i db.rrsets))
      × (rrsets_at name new.item db.rrsets ≡ [])
unfolding rrsets_at insert_rrset keep
rows_inserted name new i db db' e h =
    let z = rows_none name new.item db.rrsets (ground arith) in
    (ground (arith, z, ==_iff i new.item, ==_iff new.item i, ==_iff new.domain name), z)

-- the row that a query by the key has found
pub the_only-row :
    (name : String) (i : Item) (rs : List RRset) (r : RRset)
    → the_only (rrsets_at name i rs) ≡ ok r
    → (rrsets_at name i rs ≡ r ∷ []) × (r.domain ≡ name) × (r.item ≡ i)
unfolding rrsets_at the_only
the_only-row name i rs r h =
    let e = single (keep (is_at name i) rs) h in
    let (_, m) = In-keep (is_at name i) r rs (rw e (inl refl)) in
    (e, ground (arith, ==_iff r.domain name), ground (arith, ==_iff r.item i))
  where
    single : (xs : List RRset) → the_only xs ≡ ok r → xs ≡ r ∷ []
    single [] h = absurd (ground arith)
    single (x ∷ []) h = ground arith
    single (x ∷ y ∷ xs) h = absurd (ground arith)

-- A step at a key leaves the rows at every other key.
abbrev pub Frames : String → (Item → Db → Result BulkError Effect) → Type 0
Frames name step =
    (i j : Item) (db : Db) (c : Effect)
    → step j db ≡ ok c
    → (i == j) ≡ false
    → rrsets_at name i c.0.rrsets ≡ rrsets_at name i db.rrsets

pub from_db-ok : {A : Type 0} (r : Result DbError A) {a : A} → from_db r ≡ ok a → r ≡ ok a
from_db-ok (ok a) h = ground arith
from_db-ok (err e) h = absurd (ground arith)

from_records-ok :
    {A : Type 0} (r : Result (List RecordError) A) {a : A} → from_records r ≡ ok a → r ≡ ok a
from_records-ok (ok a) h = ground arith
from_records-ok (err e) h = absurd (ground arith)

pub required-some :
    {A : Type 0} (o : Option A) (e : BulkError) {a : A} → required o e ≡ ok a → o ≡ some a
required-some none e h = absurd (ground arith)
required-some (some a) e h = ground arith

pub delete_at-rows :
    (name : String) (i j : Item) (db : Db) (c : Effect)
    → delete_at name j db ≡ ok c
    → rrsets_at name i c.0.rrsets ≡ (if i == j then [] else rrsets_at name i db.rrsets)
unfolding delete_at delete_row
delete_at-rows name i j db c h =
    let (r, e, k) = >>=-eq-ok (from_db (the_only (rrsets_at name j db.rrsets))) _ h in
    let (_, d, f) = the_only-row name j db.rrsets r (from_db-ok _ e) in
    let same : keep (λ x. not (is_at r.domain r.item x)) db.rrsets ≡ c.0.rrsets = ground arith in
    rw (← same, d, f) (rows_deleted name j i db.rrsets)

module _ (canonical : String → String → Option String) (name : String) where
  -- What is written for the data `d`, where `old` is the row that was there: the given TTL and
  -- contents, and what is not given stays.
  pub record IsWritten (d : Data) (old : Option RRset) (new : RRset) : Type 0 where
    pub domain : new.domain ≡ name
    pub item : new.item ≡ d.item
    pub valid :
        (rs : List String)
        → d.records ≡ some rs
        → all (is_valid_content canonical d.item.0) rs ≡ true
    pub contents :
        (rs : List String)
        → d.records ≡ some rs
        → (c : String) → member c new.records ≡ any (presents canonical d.item.0 c) rs
    pub kept : (r : RRset) → d.records ≡ none → old ≡ some r → new.records ≡ r.records
    pub ttl : (t : ℕ) → d.ttl ≡ some t → (t == 0) ≡ false → new.ttl ≡ t
    pub ttl_kept : (r : RRset) → d.ttl ≡ none → old ≡ some r → new.ttl ≡ r.ttl

  -- a row that is inserted and then written
  over_inserted :
      (i key : Item) (first new : RRset) (inserted db : Db) (rs : List RRset)
      → insert_rrset first db ≡ ok inserted
      → first.domain ≡ name
      → first.item ≡ key
      → new.domain ≡ name
      → new.item ≡ key
      → (write_row new inserted).rrsets ≡ rs
      → rrsets_at name i rs ≡ (if i == key then new ∷ [] else rrsets_at name i db.rrsets)
  over_inserted i key first new inserted db rs h e f dm it g =
      let (rows, _) = rows_inserted name first i db inserted e h in
      write_row-rows name new i key inserted rs dm it g
      ∙ by_key (i == key) first new (rrsets_at name i inserted.rrsets) (rrsets_at name i db.rrsets)
          (rw (← f) rows)
    where
      by_key :
          (b : Bool) (x y : RRset) (now rest : List RRset)
          → now ≡ (if b then x ∷ [] else rest)
          → (if b then map (λ r. y) now else now) ≡ (if b then y ∷ [] else rest)
      by_key true x y now rest k = ap (map (λ r. y)) k
      by_key false x y now rest k = k

  pub create-rows :
      (d : Data) (db : Db) (c : Effect)
      → create canonical name d db ≡ ok c
      → (new : RRset) × IsWritten d none new
        × ((i : Item)
            → rrsets_at name i c.0.rrsets
              ≡ (if i == d.item then new ∷ [] else rrsets_at name i db.rrsets))
  unfolding create set_all_record_contents write_row
  create-rows d db c h =
      let (records, e1, k1) = >>=-eq-ok (required d.records key_error) _ h in
      let (ttl, e2, k2) = >>=-eq-ok (required d.ttl ttl_missing) _ k1 in
      let (inserted, e3, k3) =
        >>=-eq-ok (from_db (insert_rrset (new_row name d.item ttl) db)) _ k2 in
      let (done, e4, k4) =
        >>=-eq-ok (set_all_record_contents canonical (new_row name d.item ttl) records inserted) _
          k3 in
      let (saved, e5, k5) =
        >>=-eq-ok (from_records (save_records canonical (new_row name d.item ttl) records)) _ e4 in
      let v =
        save_records-IsSaved canonical (new_row name d.item ttl) records saved.0 saved.1
          (from_records-ok _ e5) in
      let o = v.only_records in
      let f : d.records ≡ some records = required-some _ _ e1 in
      let g : d.ttl ≡ some ttl = required-some _ _ e2 in
      let dom : saved.0.domain ≡ name = ap (λ (x : RRset). x.domain) o in
      let itm : saved.0.item ≡ d.item = ap (λ (x : RRset). x.item) o in
      let tim : saved.0.ttl ≡ ttl = ap (λ (x : RRset). x.ttl) o in
      let result : (write_row saved.0 inserted).rrsets ≡ c.0.rrsets = ground arith in
      (
        saved.0,
        record {
          domain = dom;
          item = itm;
          valid = λ rs q. (let same : records ≡ rs = ground arith in rw (← same) v.valid);
          contents =
              λ rs q x. (let same : records ≡ rs = ground arith in rw (← same) (v.contents x));
          kept = λ r q z. absurd (ground arith);
          ttl = λ t q z. ground arith;
          ttl_kept = λ r q z. absurd (ground arith);
        },
        λ i.
            over_inserted i d.item (new_row name d.item ttl) saved.0 inserted db c.0.rrsets
              (from_db-ok _ e3) refl refl dom itm result,
      )

  -- the records part of an update
  new_records-only :
      (r new : RRset) (rs : Option (List String)) (signals : List Signal)
      → new_records canonical r rs ≡ ok (new, signals)
      → new ≡ record r { records = new.records }
  unfolding new_records
  new_records-only r new none signals h = let same : r ≡ new = ground arith in rw (← same) refl
  new_records-only r new (some rs) signals h =
      (save_records-IsSaved canonical r rs new signals (from_records-ok _ h)).only_records

  new_records-kept :
      (r new : RRset) (signals : List Signal)
      → new_records canonical r none ≡ ok (new, signals)
      → new.records ≡ r.records
  unfolding new_records
  new_records-kept r new signals h = ground arith

  new_records-IsSaved :
      (r new : RRset) (rs : List String) (signals : List Signal)
      → new_records canonical r (some rs) ≡ ok (new, signals)
      → IsSaved canonical r rs new signals
  unfolding new_records
  new_records-IsSaved r new rs signals h =
      save_records-IsSaved canonical r rs new signals (from_records-ok _ h)

  pub update-rows :
      (r : RRset) (d : Data) (db : Db) (c : Effect)
      → r.domain ≡ name
      → r.item ≡ d.item
      → update canonical r d db ≡ ok c
      → (new : RRset) × IsWritten d (some r) new
        × ((i : Item)
            → rrsets_at name i c.0.rrsets ≡ (
                if i == d.item
                then map (λ x. new) (rrsets_at name i db.rrsets)
                else rrsets_at name i db.rrsets))
  unfolding update write_row
  update-rows r d db c dm it h =
      let (changed, e, k) = >>=-eq-ok (new_records canonical r d.records) _ h in
      let o = new_records-only r changed.0 d.records changed.1 e in
      let new : RRset = record changed.0 { ttl = new_ttl canonical r d.ttl } in
      let dom : new.domain ≡ name = ap (λ (x : RRset). x.domain) o ∙ dm in
      let itm : new.item ≡ d.item = ap (λ (x : RRset). x.item) o ∙ it in
      let result : (write_row new db).rrsets ≡ c.0.rrsets = ground arith in
      (
        new,
        record {
          domain = dom;
          item = itm;
          valid = λ rs q.
              ap (λ (j : Item). all (is_valid_content canonical j.0) rs) (sym it)
              ∙ (new_records-IsSaved r changed.0 rs changed.1
                  (ap (new_records canonical r) (sym q) ∙ e)).valid;
          contents = λ rs q x.
              (new_records-IsSaved r changed.0 rs changed.1
                  (ap (new_records canonical r) (sym q) ∙ e)).contents
                x
              ∙ ap (λ (j : Item). any (presents canonical j.0 x) rs) it;
          kept = λ s q z.
              (let same : r.records ≡ s.records = ground arith in
                new_records-kept r changed.0 changed.1 (ap (new_records canonical r) (sym q) ∙ e)
                ∙ same);
          ttl = λ t q z. ground (arith, ==_iff r.ttl t);
          ttl_kept = λ s q z. ground arith;
        },
        λ i. write_row-rows name new i d.item db c.0.rrsets dom itm result,
      )
