-- ===== src/Samples/Elements.antt =====
-- The validation of one RR set, alone and in a list.
use desec_stack.Common.{
  ℕ, ◌≤◌, String, ◌≡◌, refl, ◌≢◌, Bool, true, false, not, none, some, List, [], ◌∷◌, arith,
  if◌then◌else◌, ◌==◌, nat_eq, string_eq, pair_eq, option_eq, ok, err, keep, member, add, discard,
  to_set, get, put,
}
use desec_stack.Db.{Item, RRset}
use desec_stack.Element.{
  Attrs, Setting, Services, Rejection, attribute_error, validate_type, type_issues,
  validate_subname, subname_issues, ttl_issues, records_issues, all_issues, read_fields, type_of,
  check_permission, is_exclusive, check_exclusion,
}
use desec_stack.Element.Validate.{
  canonical_records, has_duplicates, total_size, conservative_total_length, check_records,
  is_locked, checked_records, validate, run_validation,
}
use desec_stack.Db.{Db, integrity_error, rrsets_at}
use desec_stack.Bulk.{Data, database, update_all, Effect}
use desec_stack.Validation.{
  RecordsField, missing, empty, filled, Element, dict, text, Key, to_internal_value, is_nonempty,
  check_types, index_elements, collapse, index_element, ensure_subname, set_positions, positions,
  types_at, collapse_element, check_elements, check_element, conflicting, is_known, database_types,
}
use desec_stack.Element.Limits.{IsAccepted, run_validation-IsAccepted}
use desec_stack.Element.Missing.{validate-missing}
use desec_stack.Validation.Trimmed.{trimmed_key}
use desec_stack.Element.Reading.{has_no_records, validate_element}
use desec_stack.Element.Keeping.{IsReading, bulk_update-permitted}
use desec_stack.Context.Data.{construct_name}

abbrev element_services : Services
element_services = record {
  is_subname = λ s. true;
  is_type = λ t. true;
  is_name_too_long = λ s d. false;
  canonical = λ content type. some content;
  to_wire = λ type content. content;
  is_blocked = λ content. content == "10.0.0.1";
  permits = λ item. not (item == ("A", "secret"));
}

abbrev there : RRset
there = record { domain = "x.dedyn.io"; item = ("A", "secret"); ttl = 60; records = "1.1.1.1" ∷ [] }

abbrev element_setting : Setting
element_setting = record {
  domain = "x.dedyn.io";
  is_locally_registrable = true;
  rrsets = there ∷ [];
  minimum_ttl = 60;
  maximum_ttl = 86400;
  manageable = "A" ∷ "NS" ∷ "TXT" ∷ [];
  automatic = "SOA" ∷ [];
  is_post = false;
  is_many = false;
  partial = false;
  instance_of = none;
  view_subname = none;
}

abbrev address_attrs : Attrs
address_attrs = record {
  subname = some "a";
  type = some "A";
  ttl = some 3600;
  records = some ("1.2.3.4" ∷ []);
}

abbrev none_taken : Setting → Attrs → Bool
none_taken c a = false

address_accepted :
    run_validation none_taken element_services element_setting address_attrs ≡ ok address_attrs
unfolding run_validation read_fields all_issues type_issues validate_type subname_issues
    validate_subname ttl_issues records_issues check_permission type_of check_exclusion is_exclusive
    validate checked_records check_records canonical_records has_duplicates
    conservative_total_length total_size construct_name is_locked to_set add member
address_accepted = refl

run_validation-IsAccepted_example : IsAccepted element_services element_setting address_attrs
run_validation-IsAccepted_example =
    run_validation-IsAccepted none_taken element_services element_setting address_attrs
      address_attrs address_accepted

abbrev emptied_ns : Attrs
emptied_ns = record { subname = some "b"; type = some "NS"; ttl = some 3600; records = some [] }

short_name : conservative_total_length element_setting emptied_ns.subname [] ≤ 65535
unfolding conservative_total_length total_size construct_name
short_name = omega arith

validate-missing_example :
    validate element_services element_setting emptied_ns ≡ err attribute_error
validate-missing_example =
    validate-missing element_services element_setting emptied_ns refl refl refl short_name

-- white space is taken off the one text here that ends with it
abbrev no_space : String → String
no_space s = if s == "a " then "a" else s

abbrev read_element : ℕ → Key → RecordsField → Attrs
read_element i k r = record {
  subname = (trimmed_key no_space k).0;
  type = (trimmed_key no_space k).1;
  ttl = some 3600;
  records = elim r [ missing ↦ none | empty ↦ some [] | filled ↦ some ("1.2.3.4" ∷ []) ];
}

reads_records :
    (i : ℕ) (k : Key) (r : RecordsField)
    → has_no_records (read_element i k r).records ≡ not (is_nonempty r)
reads_records i k missing = refl
reads_records i k empty = refl
reads_records i k filled = refl

sample-IsReading : IsReading no_space read_element
sample-IsReading = record { key = λ i k r. refl; records = reads_records }

abbrev said : Rejection → String
said e = "rejected"

abbrev two_elements : List Element
two_elements = dict (text "a") (text "A") filled ∷ dict (text "b") (text "TXT") empty ∷ []

abbrev element_db : Db
element_db = record { domains = []; rrsets = there ∷ [] }

abbrev two_data : List Data
two_data =
    record { item = ("A", "a"); ttl = some 3600; records = some ("1.2.3.4" ∷ []) }
    ∷ record { item = ("TXT", "b"); ttl = some 3600; records = some [] }
    ∷ []

two_accepted :
    to_internal_value
      (validate_element none_taken element_services said read_element element_setting)
      "x.dedyn.io"
      false
      []
      two_elements
      element_db
    ≡ ok two_data
unfolding to_internal_value check_types index_elements collapse index_element ensure_subname
    set_positions positions types_at collapse_element check_elements check_element conflicting
    is_known database_types get put add member keep discard validate_element run_validation
    read_fields all_issues type_issues validate_type subname_issues validate_subname ttl_issues
    records_issues check_permission type_of check_exclusion is_exclusive validate checked_records
    check_records canonical_records has_duplicates conservative_total_length total_size
    construct_name is_locked to_set
two_accepted = refl

named_types : member "" element_setting.manageable ≡ false
unfolding member
named_types = refl

bulk_update-permitted_example :
    (update_all (λ content type. some content) "x.dedyn.io" two_data element_db
      ≢ err (database integrity_error))
    × ((after : Effect)
        → update_all (λ content type. some content) "x.dedyn.io" two_data element_db ≡ ok after
        → (item : Item) → element_services.permits item ≡ false
        → rrsets_at "x.dedyn.io" item (after.0).rrsets
          ≡ rrsets_at "x.dedyn.io" item element_db.rrsets)
bulk_update-permitted_example =
    bulk_update-permitted none_taken element_services said no_space read_element element_setting
      sample-IsReading named_types (λ content type. some content) false [] two_elements element_db
      two_data refl two_accepted
