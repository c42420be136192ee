-- ===== src/Db.antt =====
-- The rows of the database that the other modules read and write: models/domains.py `Domain` and
-- models/records.py `RRset` with its `RR`s, their constraints, and the queries on them.
use desec_stack.Common.{
  ℕ, String, Bool, differ, ◌&&◌, ◌||◌, Option, List, [], ◌∷◌, ◌++◌, if◌then◌else◌, ◌==◌, nat_eq,
  string_eq, pair_eq, Result, ok, err, ◌>>=◌, keep, any,
}

-- An RR set is identified within its domain by its type and subname.
abbrev pub Item : Type 0
Item = String × String

-- `RRset` with the contents of its `RR`s.
pub record RRset : Type 0 where
  pub domain : String
  pub item : Item
  pub ttl : ℕ
  pub records : List String

-- `Domain`; times are numbers of seconds.
pub record Domain : Type 0 where
  pub name : String
  pub owner : String
  pub published : Option ℕ
  pub minimum_ttl : ℕ
  pub renewal_state : ℕ
  pub renewal_changed : ℕ

pub record Db : Type 0 where
  pub domains : List Domain
  pub rrsets : List RRset

pub data DbError : Type 0 where
  does_not_exist multiple_objects_returned integrity_error : DbError

-- `filter(domain__name=name, type=item[0], subname=item[1])`
abbrev pub is_at : String → Item → RRset → Bool
is_at name item r = r.domain == name && r.item == item

-- `get()` on the rows of a query
unfoldable pub the_only : {A : Type 0} → List A → Result DbError A
the_only [] = err does_not_exist
the_only (x ∷ []) = ok x
the_only (x ∷ y ∷ xs) = err multiple_objects_returned

unfoldable pub rrsets_at : String → Item → List RRset → List RRset
rrsets_at name item rs = keep (is_at name item) rs

-- `RRset.objects.values_list("ttl", flat=True).get(...)`
unfoldable pub ttl_of : String → Item → Db → Result DbError ℕ
unfolding the_only rrsets_at
ttl_of name item db = do r ← the_only (rrsets_at name item db.rrsets); ok r.ttl

-- the contents of `RR.objects.filter(rrset__domain__name=..., rrset__type=..., rrset__subname=...)`
unfoldable pub contents_of : List RRset → List String
contents_of [] = []
contents_of (r ∷ rs) = r.records ++ contents_of rs

unfoldable pub contents_at : String → Item → Db → List String
unfolding rrsets_at contents_of
contents_at name item db = contents_of (rrsets_at name item db.rrsets)

-- an RR set of that type and subname exists in the domain
unfoldable pub exists_at : String → Item → List RRset → Bool
exists_at name item rs = any (is_at name item) rs

-- The exclusion constraint `cname_exclusivity`: at one name, CNAME stands alone.
unfoldable pub conflicts_with : RRset → RRset → Bool
conflicts_with new r =
    r.domain == new.domain
    && r.item.1 == new.item.1
    && differ (r.item.0 == "CNAME") (new.item.0 == "CNAME")

-- A row may be inserted if it breaks neither `unique_together` nor `cname_exclusivity`.
unfoldable pub insert_rrset : RRset → Db → Result DbError Db
unfolding exists_at conflicts_with
insert_rrset r db =
    if exists_at r.domain r.item db.rrsets || any (conflicts_with r) db.rrsets
    then err integrity_error
    else ok (record db { rrsets = r ∷ db.rrsets })
