-- ===== src/Context/Data.antt =====
-- pdns_change_tracker.py: what the changes send to the name servers and write to the database, as
-- functions of the database.
use desec_stack.Common.{
  ℕ, String, Bool, true, false, not, some, List, [], ◌∷◌, ◌++◌, map, if◌then◌else◌, ◌==◌, nat_eq,
  string_eq, pair_eq, Result, ok, ◌>>=◌, ◌>>◌, raise_if, keep, member, is_distinct, union,
  difference,
}
use Prim.Native.String.{◌++◌ as ◌^^◌}
use desec_stack.Db.{
  Item, Domain, Db, DbError, integrity_error, the_only, ttl_of, contents_at, insert_rrset,
}
use desec_stack.Changes.{Change, create_domain, delete_domain, update_rr_sets}

-- One element of `data["rrsets"]`; its `changetype` is always `REPLACE`.
pub record RRsetData : Type 0 where
  pub name : String
  pub type : String
  pub ttl : ℕ
  pub contents : List String

-- The calls of pdns.py and pch.py that the tracker makes.
pub data Call : Type 0 where
  create_zone_lord create_zone_master delete_zone_lord delete_zone_master : String → Call
  update_catalog : String → Bool → Call
  update_zone : String → List RRsetData → Call
  axfr_to_master pch_create_domain pch_delete_domain : String → Call

pub record Settings : Type 0 where
  pub default_ns_ttl : ℕ
  pub default_ns : List String
  -- `settings.PCH_API and not settings.DEBUG`
  pub pch_enabled : Bool

-- `RRset.construct_name`: the nonempty ones of the two parts, joined by a dot
unfoldable pub construct_name : String → String → String
construct_name subname domain_name =
    if subname == ""
    then domain_name ^^ "."
    else if domain_name == ""
    then subname ^^ "."
    else subname ^^ "." ^^ domain_name ^^ "."

abbrev pub cleared_data : String → Item → RRsetData
cleared_data name item = record {
  name = construct_name item.1 name;
  type = item.0;
  ttl = 1;
  contents = [];
}

unfoldable pub written_data : String → Db → Item → Result DbError RRsetData
written_data name db item = do
  ttl ← ttl_of name item db
  ok (record {
    name = construct_name item.1 name;
    type = item.0;
    ttl = ttl;
    contents = contents_at name item db;
  })

unfoldable pub all_written_data : String → Db → List Item → Result DbError (List RRsetData)
unfolding written_data
all_written_data name db [] = ok []
all_written_data name db (item ∷ items) = do
  first ← written_data name db item
  rest ← all_written_data name db items
  ok (first ∷ rest)

-- `data["rrsets"]` of `CreateUpdateDeleteRRSets.pdns_do`
unfoldable pub rrsets_data :
    String → Db → List Item → List Item → List Item → Result DbError (List RRsetData)
unfolding all_written_data
rrsets_data name db additions modifications deletions = do
  written ← all_written_data name db (difference (union additions modifications) deletions)
  ok (map (cleared_data name) deletions ++ written)

abbrev pub axfr_required : Change → Bool
axfr_required (create_domain name) = true
axfr_required (delete_domain name) = false
axfr_required (update_rr_sets name a m d) = true

abbrev pub domain_name : Change → String
domain_name (create_domain name) = name
domain_name (delete_domain name) = name
domain_name (update_rr_sets name a m d) = name

-- `Domain.objects.get(name=name)`
unfoldable pub get_domain : String → Db → Result DbError Domain
unfolding the_only
get_domain name db = the_only (keep (λ d. d.name == name) db.domains)

-- the rows that `CreateDomain.api_do` adds; no content stands twice in one set (`unique_record_in_rrset`)
unfoldable pub default_rrset : Settings → String → Db → Result DbError Db
unfolding get_domain is_distinct
default_rrset settings name db = do
  domain ← get_domain name db
  raise_if (not (is_distinct settings.default_ns)) integrity_error
  insert_rrset
      (record {
        domain = domain.name;
        item = ("NS", "");
        ttl = settings.default_ns_ttl;
        records = settings.default_ns;
      })
      db

-- `Domain.objects.filter(name__in=names).update(published=now)`
unfoldable pub publish : List String → ℕ → List Domain → List Domain
unfolding member
publish names now = map (λ d. if member d.name names then record d { published = some now } else d)
