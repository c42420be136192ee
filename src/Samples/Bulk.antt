-- ===== src/Samples/Bulk.antt =====
-- Saving records and a bulk update, with a function for `RR.canonical_presentation_format` that knows
-- a few contents.
use desec_stack.Common.{
  String, ◌≡◌, refl, Bool, true, false, ◌||◌, Option, none, some, List, [], ◌∷◌, ◌==◌, nat_eq,
  string_eq, pair_eq, ok, err, keep, is_distinct,
}
use desec_stack.Db.{Item, RRset, Db}
use desec_stack.Tracker.{Signal, rr_deleted, rr_set_saved, rr_set_deleted}
use desec_stack.Records.{save_records}
use desec_stack.Records.Saving.{IsSaved, save_records-IsSaved}
use desec_stack.Bulk.{Data, Effect, update_all}
use desec_stack.Bulk.Index.{items_of_data}
use desec_stack.Bulk.Making.{IsUpdated}
use desec_stack.Bulk.Refinement.{update_all-IsUpdated}
use desec_stack.Bulk.Single.{save, save-IsUpdated}
use desec_stack.Records.{invalid, duplicate, clean_records}

abbrev known_address : Bool → Bool → Option String
known_address true b = some "127.0.0.1"
known_address false true = some "127.0.0.2"
known_address false false = none

abbrev sample_format : String → String → Option String
sample_format content type =
    known_address (content == "127.0.0.1" || content == "127.00.0.1") (content == "127.0.0.2")

abbrev address : Item
address = ("A", "www")

abbrev other_address : Item
other_address = ("A", "mail")

abbrev gone : Item
gone = ("A", "old")

abbrev row : RRset
row = record { domain = "example.com"; item = address; ttl = 3600; records = "127.0.0.2" ∷ [] }

abbrev gone_row : RRset
gone_row = record { domain = "example.com"; item = gone; ttl = 3600; records = "127.0.0.2" ∷ [] }

abbrev sample_db : Db
sample_db = record { domains = []; rrsets = row ∷ gone_row ∷ [] }

abbrev sample_data : List Data
sample_data =
    record { item = address; ttl = none; records = some ("127.00.0.1" ∷ []) }
    ∷ record { item = other_address; ttl = some 60; records = some ("127.0.0.1" ∷ []) }
    ∷ record { item = gone; ttl = none; records = some [] }
    ∷ []

abbrev changed_row : RRset
changed_row = record row { records = "127.0.0.1" ∷ [] }

abbrev saved_signals : List Signal
saved_signals =
    rr_deleted (some ("example.com", address)) ∷ rr_set_saved "example.com" address false ∷ []

abbrev expected : Effect
expected = (
  record {
    domains = [];
    rrsets =
        record {
          domain = "example.com";
          item = other_address;
          ttl = 60;
          records = "127.0.0.1" ∷ [];
        }
        ∷ changed_row
        ∷ [];
  },
  rr_deleted (some ("example.com", gone))
      ∷ rr_set_deleted "example.com" gone
      ∷ rr_set_saved "example.com" other_address true
      ∷ rr_set_saved "example.com" other_address false
      ∷ saved_signals,
)

refused :
    clean_records sample_format address ("127.0.0.1" ∷ "127.00.0.1" ∷ "x" ∷ [])
    ≡ err (duplicate "127.00.0.1" "127.0.0.1" ∷ invalid "x" ∷ [])
unfolding clean_records
refused = refl

saves : save_records sample_format row ("127.00.0.1" ∷ []) ≡ ok (changed_row, saved_signals)
unfolding save_records keep
saves = refl

updates : update_all sample_format "example.com" sample_data sample_db ≡ ok expected
unfolding update_all keep
updates = refl

save_records-IsSaved_example :
    IsSaved sample_format row ("127.00.0.1" ∷ []) changed_row saved_signals
save_records-IsSaved_example =
    save_records-IsSaved sample_format row ("127.00.0.1" ∷ []) changed_row saved_signals saves

sample_apart : is_distinct (items_of_data sample_data) ≡ true
unfolding is_distinct
sample_apart = refl

update_all-IsUpdated_example :
    IsUpdated sample_format "example.com" sample_data sample_db expected.0
update_all-IsUpdated_example =
    update_all-IsUpdated sample_format "example.com" sample_data sample_db expected sample_apart
      updates

-- one RR set alone
abbrev one_change : Data
one_change = record { item = address; ttl = none; records = some ("127.00.0.1" ∷ []) }

abbrev one_changed : Effect
one_changed = (record { domains = []; rrsets = changed_row ∷ gone_row ∷ [] }, saved_signals)

one_saved : save sample_format "example.com" (some row) one_change sample_db ≡ ok one_changed
unfolding save update_all keep save_records
one_saved = refl

one_deleted :
    save sample_format "example.com"
      (some gone_row)
      (record { item = gone; ttl = none; records = some [] })
      sample_db
    ≡ ok (
      record { domains = []; rrsets = row ∷ [] },
      rr_deleted (some ("example.com", gone)) ∷ rr_set_deleted "example.com" gone ∷ [],
    )
unfolding save update_all keep
one_deleted = refl

save-IsUpdated_example :
    IsUpdated sample_format "example.com" (one_change ∷ []) sample_db one_changed.0
unfolding update_all keep
save-IsUpdated_example =
    save-IsUpdated sample_format "example.com" one_change sample_db (some row) one_changed refl
      one_saved
