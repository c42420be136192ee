-- ===== src/Records.antt =====
-- models/records.py: how the records of an RR set are validated and saved (`RRset.clean_records`,
-- `RRset.save_records`). `canonical` stands for `RR.canonical_presentation_format`, whose work is done
-- by dnspython: none is its ValueError.
pub mod Saving
use desec_stack.Common.{
  ◌+◌, String, Bool, true, false, not, ◌&&◌, ◌||◌, Option, none, some, List, [], ◌∷◌, ◌++◌, map,
  arith, ltb, if◌then◌else◌, ◌==◌, nat_eq, string_eq, pair_eq, Result, ok, err, ◌>>=◌, ◌>>◌, length,
  keep, is_empty, member, difference,
}
use desec_stack.Db.{Item, RRset}
use desec_stack.Tracker.{Signal, rr_saved, rr_deleted, rr_set_saved, rr_set_deleted}

pub data RecordError : Type 0 where
  multiple_records empty_subname nonempty_subname : RecordError
  invalid : String → RecordError
  duplicate : String → String → RecordError

abbrev pub error_if : Bool → RecordError → List RecordError
error_if true e = e ∷ []
error_if false e = []

abbrev pub has_several : {A : Type 0} → List A → Bool
has_several xs = ltb 1 (length xs)

-- the checks of `clean_records` that do not read the contents
unfoldable pub clean_shape : Item → List String → List RecordError
clean_shape item records =
    error_if ((item.0 == "CNAME" || item.0 == "DNAME") && has_several records) multiple_records
    ++ error_if ((item.0 == "CNAME" || item.0 == "DS") && item.1 == "") empty_subname
    ++ error_if (item.0 == "DNSKEY" && not (item.1 == "")) nonempty_subname

module _ (canonical : String → String → Option String) where
  -- the loop over the records: the errors, and the set of canonical contents
  unfoldable pub clean_contents :
      String → List String → List String → List RecordError × List String
  unfolding member
  clean_contents type [] found = ([], found)
  clean_contents type (r ∷ rs) found = elim (canonical r type) [
    | none ↦
        (let (errors, all_found) = clean_contents type rs found in (invalid r ∷ errors, all_found))
    | some c ↦
        (let (errors, all_found) = clean_contents type rs found in
          let with_c = clean_contents type rs (c ∷ found) in
          if member c found then (duplicate r c ∷ errors, all_found) else with_c)
  ]

  -- `clean_records`
  unfoldable pub clean_records : Item → List String → Result (List RecordError) (List String)
  unfolding clean_shape clean_contents
  clean_records item records =
      let (errors, found) = clean_contents item.0 records [] in
      if is_empty (clean_shape item records ++ errors)
      then ok found
      else err (clean_shape item records ++ errors)

  -- `save_records`, with the signals of the rows that it deletes, and of the RR set, which the manager
  -- of the added rows saves
  unfoldable pub save_records :
      RRset → List String → Result (List RecordError) (RRset × List Signal)
  unfolding clean_records member difference
  save_records r records = do
    new ← clean_records r.item records
    let unchanged = keep (λ c. member c new) r.records
    let removed = keep (λ c. not (member c new)) r.records
    let added = difference new unchanged
    ok (
      record r { records = unchanged ++ added },
      map (λ c. rr_deleted (some (r.domain, r.item))) removed
          ++ (if is_empty added then [] else rr_set_saved r.domain r.item false ∷ []),
    )
