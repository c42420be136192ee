-- ===== src/Samples/Validating.antt =====
-- A list that replaces a CNAME by an address, and one that puts an address beside it.
use desec_stack.Common.{
  ℕ, String, ◌≡◌, refl, ◌≢◌, Bool, true, false, not, Option, none, some, List, [], ◌∷◌, arith,
  if◌then◌else◌, ◌==◌, nat_eq, string_eq, pair_eq, option_eq, Result, ok, err, ok_same, keep,
  is_empty,
}
use desec_stack.Db.{Db}
use desec_stack.Bulk.{Data}
use desec_stack.Validation.{
  text, other, RecordsField, missing, empty, filled, Element, not_a_dict, dict, Key,
  not_a_dictionary, subname_type, not_unique, conflict, is_nonempty, to_internal_value,
}
use desec_stack.Db.{integrity_error}
use desec_stack.Bulk.{Data, update_all, database}
use desec_stack.Validation.Trimmed.{trimmed_key, IsTrimming}
use desec_stack.Validation.Exclusivity.{IsExclusive, to_internal_value-IsExclusive}
use desec_stack.Validation.Integrity.{to_internal_value-update_all}

abbrev contents_of_field : RecordsField → Option (List String)
contents_of_field missing = none
contents_of_field empty = some []
contents_of_field filled = some ("127.0.0.1" ∷ [])

-- white space is taken off the one text here that ends with it
abbrev no_space : String → String
no_space s = if s == "www " then "www" else s

-- a validation that takes every key that is whole
abbrev take_all : ℕ → Key → RecordsField → Bool → Bool → Result String Data
take_all idx (some s, some t) r p q =
    ok (record { item = (no_space t, no_space s); ttl = some 60; records = contents_of_field r })
take_all idx (some s, none) r p q = err "type"
take_all idx (none, t) r p q = err "subname"

take_all-IsTrimming : IsTrimming no_space take_all
take_all-IsTrimming = record {
  key = λ idx k r p q d h. same_key idx k r p q d h;
  records = λ idx k r p q d h. same_records idx k r p q d h;
}
  where
    same_key :
        (idx : ℕ) (k : Key) (r : RecordsField) (p q : Bool) (d : Data)
        → take_all idx k r p q ≡ ok d
        → trimmed_key no_space k ≡ (some d.item.1, some d.item.0)
    same_key idx (some s, some t) r p q d h = rw (← ok_same h) refl
    same_key idx (some s, none) r p q d h = absurd (ground arith)
    same_key idx (none, t) r p q d h = absurd (ground arith)

    same_records :
        (idx : ℕ) (k : Key) (r : RecordsField) (p q : Bool) (d : Data)
        → take_all idx k r p q ≡ ok d
        → elim d.records [ none ↦ false | some rs ↦ is_empty rs ] ≡ not (is_nonempty r)
    same_records idx (some s, some t) missing p q d h = ground arith
    same_records idx (some s, some t) empty p q d h = ground arith
    same_records idx (some s, some t) filled p q d h = ground arith
    same_records idx (some s, none) r p q d h = absurd (ground arith)
    same_records idx (none, t) r p q d h = absurd (ground arith)

abbrev cname_db : Db
cname_db = record {
  domains = [];
  rrsets =
      record {
        domain = "example.com";
        item = ("CNAME", "www");
        ttl = 60;
        records = "example.com." ∷ [];
      }
      ∷ [];
}

abbrev replacing : List Element
replacing = dict (text "www") (text "A") filled ∷ dict (text "www") (text "CNAME") empty ∷ []

abbrev replaced : List Data
replaced =
    record { item = ("A", "www"); ttl = some 60; records = some ("127.0.0.1" ∷ []) }
    ∷ record { item = ("CNAME", "www"); ttl = some 60; records = some [] }
    ∷ []

abbrev canonical : String → String → Option String
canonical content type = some content

passes :
    to_internal_value take_all "example.com" true (("CNAME", "www") ∷ []) replacing cname_db
    ≡ ok replaced
unfolding to_internal_value keep
passes = refl

refused :
    to_internal_value take_all "example.com" true []
      (dict (text "www") (text "A") filled ∷ not_a_dict ∷ dict other (text "A") filled ∷ [])
      cname_db
    ≡ err (
        (conflict ((some "CNAME", none ∷ []) ∷ []) ∷ [])
        ∷ (not_a_dictionary ∷ [])
        ∷ (subname_type ∷ [])
        ∷ [])
unfolding to_internal_value keep
refused = refl

twice :
    to_internal_value take_all "example.com" true []
      (dict (text "a") (text "A") filled ∷ dict (text "a") (text "A") filled ∷ [])
      cname_db
    ≡ err ((not_unique (some 1 ∷ []) ∷ []) ∷ (not_unique (some 0 ∷ []) ∷ []) ∷ [])
unfolding to_internal_value keep
twice = refl

-- White space at the end of a subname: the list passes, and saving it breaks the constraint.
abbrev spaced : List Element
spaced = dict (text "www") (text "CNAME") filled ∷ dict (text "www ") (text "A") filled ∷ []

abbrev spaced_data : List Data
spaced_data =
    record { item = ("CNAME", "www"); ttl = some 60; records = some ("127.0.0.1" ∷ []) }
    ∷ record { item = ("A", "www"); ttl = some 60; records = some ("127.0.0.1" ∷ []) }
    ∷ []

abbrev no_rows : Db
no_rows = record { domains = []; rrsets = [] }

spaced_passes : to_internal_value take_all "example.com" true [] spaced no_rows ≡ ok spaced_data
unfolding to_internal_value keep
spaced_passes = refl

spaced_breaks :
    update_all canonical "example.com" spaced_data no_rows ≡ err (database integrity_error)
unfolding update_all keep
spaced_breaks = refl

to_internal_value-IsExclusive_example : IsExclusive "example.com" cname_db replaced
to_internal_value-IsExclusive_example =
    to_internal_value-IsExclusive no_space take_all "example.com" true (("CNAME", "www") ∷ [])
      replacing cname_db replaced take_all-IsTrimming refl passes

to_internal_value-update_all_example :
    update_all canonical "example.com" replaced cname_db ≢ err (database integrity_error)
to_internal_value-update_all_example =
    to_internal_value-update_all canonical no_space take_all "example.com" true
      (("CNAME", "www") ∷ []) replacing cname_db replaced take_all-IsTrimming refl passes
