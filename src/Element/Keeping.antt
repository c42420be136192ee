-- ===== src/Element/Keeping.antt =====
-- serializers/records.py: the list serializer with the RR set serializer behind it, so that a bulk
-- update is one of RR sets that the request may write and the database can hold.
use desec_stack.Common.{
  all, ℕ, String, ◌≡◌, refl, sym, ap, ◌∙◌, ◌≢◌, inl, inr, Bool, true, false, not, Option, none,
  some, List, [], if◌then◌else◌, Bool-cases, nat_eq, string_eq, pair_eq, option_eq, ok, err, member,
}
use desec_stack.Db.{Item}
use desec_stack.Element.{Attrs, Setting, Services, Rejection}
use desec_stack.Db.{Db, integrity_error, rrsets_at}
use desec_stack.Bulk.{Data, database, update_all, Effect}
use desec_stack.Validation.{
  RecordsField, missing, empty, filled, Element, Key, is_nonempty, to_internal_value,
}
use desec_stack.Validation.Trimmed.{
  is_trimmed_key, is_trimmed, trimmed_key, trimmed_key-same, to_internal_value-same,
}
use desec_stack.Element.Reading.{IsExact, has_no_records, validate_element}
use desec_stack.Element.Exact.{bulk_update-permitted_kept}

-- The framework's reading of an element: it takes white space off the texts of the key, and leaves
-- whether the list of records is empty.
pub record IsReading (trim : String → String) (read : ℕ → Key → RecordsField → Attrs) : Type 0 where
  pub key :
      (i : ℕ) (k : Key) (r : RecordsField)
      → ◌≡◌ {A = Key} ((read i k r).subname, (read i k r).type) (trimmed_key trim k)
  pub records :
      (i : ℕ) (k : Key) (r : RecordsField)
      → has_no_records (read i k r).records ≡ not (is_nonempty r)

abbrev plain_records : RecordsField → Option (List String)
plain_records missing = none
plain_records empty = some []
plain_records filled = none

-- the reading of trimmed keys, and one that leaves the texts of all others
abbrev read_trimmed :
    (String → String) → (ℕ → Key → RecordsField → Attrs) → ℕ → Key → RecordsField → Attrs
read_trimmed trim read i k r =
    if is_trimmed_key trim k
    then read i k r
    else record { subname = k.0; type = k.1; ttl = none; records = plain_records r }

plain_records-nonempty : (r : RecordsField) → has_no_records (plain_records r) ≡ not (is_nonempty r)
plain_records-nonempty missing = refl
plain_records-nonempty empty = refl
plain_records-nonempty filled = refl

read_trimmed-IsExact :
    (trim : String → String) (read : ℕ → Key → RecordsField → Attrs)
    → IsReading trim read
    → IsExact (read_trimmed trim read)
read_trimmed-IsExact trim read reads = record {
  subname = λ i k r. elim (Bool-cases (is_trimmed_key trim k)) [
    | inl t ↦ rw t (ap (λ (x : Key). x.0) (reads.key i k r ∙ trimmed_key-same trim k t))
    | inr t ↦ rw t refl
  ];
  type = λ i k r. elim (Bool-cases (is_trimmed_key trim k)) [
    | inl t ↦ rw t (ap (λ (x : Key). x.1) (reads.key i k r ∙ trimmed_key-same trim k t))
    | inr t ↦ rw t refl
  ];
  records = λ i k r. elim (Bool-cases (is_trimmed_key trim k)) [
    | inl t ↦ rw t (reads.records i k r)
    | inr t ↦ rw t (plain_records-nonempty r)
  ];
}

-- If a list of elements passes the list serializer, with the RR set serializer for each of them, and is
-- saved, then no row changes of an RR set that the token may not write, and saving never breaks a
-- constraint. The subnames and types that are sent have no white space at their ends, which the
-- framework takes off, and the empty text is no type that is managed.
pub bulk_update-permitted :
    (is_taken : Setting → Attrs → Bool) (s : Services) (message : Rejection → String)
    (trim : String → String) (read : ℕ → Key → RecordsField → Attrs) (c : Setting)
    → IsReading trim read
    → member "" c.manageable ≡ false
    → (canonical : String → String → Option String) (partial : Bool) (known : List Item)
      (elements : List Element) (db : Db) (ds : List Data)
    → all (is_trimmed trim) elements ≡ true
    → to_internal_value
        (validate_element is_taken s message read c)
        c.domain
        partial
        known
        elements
        db
      ≡ ok ds
    → (update_all canonical c.domain ds db ≢ err (database integrity_error))
      × ((after : Effect)
          → update_all canonical c.domain ds db ≡ ok after
          → (item : Item) → s.permits item ≡ false
          → rrsets_at c.domain item (after.0).rrsets ≡ rrsets_at c.domain item db.rrsets)
bulk_update-permitted is_taken s message trim read c reads named_types canonical partial known
      elements db ds trimmed h =
    let plain = read_trimmed trim read in
    let same =
      to_internal_value-same trim (validate_element is_taken s message read c)
        (validate_element is_taken s message plain c)
        (λ i k r p q t. unfold validate_element in rw t refl) c.domain partial known elements db
        trimmed in
    bulk_update-permitted_kept is_taken s message plain c (read_trimmed-IsExact trim read reads)
      named_types canonical partial known elements db ds (sym same ∙ h)
