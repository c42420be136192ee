-- ===== src/Validation.antt =====
-- serializers/records.py, `RRsetListSerializer.to_internal_value`: the checks across the elements of a
-- list, before each element is validated on its own. That is `run_validation` of the REST framework, a
-- parameter.
pub mod Index
pub mod Uniqueness
pub mod Trimmed
pub mod Collapse
pub mod Complete
pub mod Exclusivity
pub mod Errors
pub mod Placing
pub mod Integrity
use desec_stack.Common.{
  ℕ, suc, ◌+◌, String, Bool, true, false, not, ◌&&◌, Option, none, some, List, [], ◌∷◌, ◌++◌, map,
  arith, ltb, if◌then◌else◌, differ, ◌==◌, nat_eq, string_eq, pair_eq, option_eq, Result, ok, err,
  length, keep, any, is_empty, member, add, discard, Dict, get, put,
}
use desec_stack.Db.{Item, RRset, Db}
use desec_stack.Bulk.{Data}

-- A value in the JSON that is sent, as far as the code looks at it; `absent` is None.
pub data Field : Type 0 where
  absent : Field
  text : String → Field
  other : Field

-- `item.get("records")`: missing, the empty list, or anything else
pub data RecordsField : Type 0 where
  missing empty filled : RecordsField

-- An element of the list that is sent.
pub data Element : Type 0 where
  not_a_dict : Element
  dict : (subname type : Field) → RecordsField → Element

-- a subname and a type, each of which may be missing
abbrev pub Key : Type 0
Key = Option String × Option String

-- A position in the list, or None for the database.
abbrev pub Position : Type 0
Position = Option ℕ

-- `indices`, a dictionary of dictionaries of sets
abbrev pub Indices : Type 0
Indices = Dict (Option String) (Dict (Option String) (List Position))

pub data ElementError : Type 0 where
  not_a_dictionary subname_type type_type : ElementError
  not_unique : List Position → ElementError
  conflict : Dict (Option String) (List Position) → ElementError
  invalid : String → ElementError

abbrev pub is_other : Field → Bool
is_other f = elim f [ absent ↦ false | text s ↦ false | other ↦ true ]

abbrev pub value_of : Field → Option String
value_of f = elim f [ absent ↦ none | text s ↦ some s | other ↦ none ]

abbrev pub error_when : Bool → ElementError → List ElementError
error_when true e = e ∷ []
error_when false e = []

-- An element with the errors of the first loop, or with its key.
pub data Checked : Type 0 where
  failed : List ElementError → Checked
  keyed : Key → RecordsField → Checked

abbrev pub keyed_if : List ElementError → Key → RecordsField → Checked
keyed_if [] k r = keyed k r
keyed_if (e ∷ es) k r = failed (e ∷ es)

-- the checks of the types of the values
unfoldable pub check_types : Element → Checked
check_types not_a_dict = failed (not_a_dictionary ∷ [])
check_types (dict s t r) =
    keyed_if (error_when (is_other s) subname_type ++ error_when (is_other t) type_type)
      (value_of s, value_of t) r

abbrev pub or_empty : {A : Type 0} → Option (List A) → List A
or_empty none = []
or_empty (some xs) = xs

-- `indices[s][t]`
unfoldable pub positions : Key → Indices → List Position
unfolding get
positions k indices = or_empty (get k.1 (or_empty (get k.0 indices)))

-- `indices[s][t] = positions`
unfoldable pub set_positions : Key → List Position → Indices → Indices
unfolding get put
set_positions k p indices = put k.0 (put k.1 p (or_empty (get k.0 indices))) indices

-- `{type_: {None} for type_ in types}`
unfoldable pub database_types : List String → Dict (Option String) (List Position)
unfolding put
database_types [] = []
database_types (t ∷ types) = put (some t) (none ∷ []) (database_types types)

-- the types of the domain's RR sets with that subname
unfoldable pub types_at : String → Option String → Db → List String
types_at name none db = []
types_at name (some s) db =
    map (λ r. r.item.0) (keep (λ r. r.domain == name && r.item.1 == s) db.rrsets)

abbrev pub is_set : {A : Type 0} → Option A → Bool
is_set none = false
is_set (some a) = true

unfoldable pub ensure_subname : Option String → List String → Indices → Indices
unfolding get put database_types
ensure_subname s types indices =
    if is_set (get s indices) then indices else put s (database_types types) indices

module _ (name : String) (db : Db) where
  -- the first loop: the key of each element, and the index of all keys
  unfoldable pub index_element : ℕ → Checked → Indices → Indices
  unfolding ensure_subname set_positions positions add types_at
  index_element idx (failed es) indices = indices
  index_element idx (keyed k r) indices =
      let known = ensure_subname k.0 (types_at name k.0 db) indices in
      set_positions k (add (some idx) (positions k known)) known

  unfoldable pub index_elements : ℕ → List Checked → Indices → Indices
  unfolding index_element
  index_elements idx [] indices = indices
  index_elements idx (c ∷ cs) indices = index_elements (suc idx) cs (index_element idx c indices)

-- the second loop: elements without records take themselves and the database out
unfoldable pub collapse_element : ℕ → Checked → Indices → Indices
unfolding set_positions positions discard
collapse_element idx (failed es) indices = indices
collapse_element idx (keyed k missing) indices = indices
collapse_element idx (keyed k filled) indices = indices
collapse_element idx (keyed k empty) indices =
    set_positions k (discard none (discard (some idx) (positions k indices))) indices

unfoldable pub collapse : ℕ → List Checked → Indices → Indices
unfolding collapse_element
collapse idx [] indices = indices
collapse idx (c ∷ cs) indices = collapse (suc idx) cs (collapse_element idx c indices)

abbrev pub is_cname : Option String → Bool
is_cname t = t == some "CNAME"

-- `conflicting_indices_by_type`
unfoldable pub conflicting : Key → Indices → Dict (Option String) (List Position)
unfolding get
conflicting k collapsed =
    keep (λ e. differ (is_cname e.0) (is_cname k.1)) (or_empty (get k.0 collapsed))

abbrev pub is_nonempty : RecordsField → Bool
is_nonempty r = elim r [ missing ↦ true | empty ↦ false | filled ↦ true ]

-- `self._key(item) in known_instances.keys()`
unfoldable pub is_known : List Item → Key → Bool
unfolding member
is_known known (some s, some t) = member (t, s) known
is_known known (some s, none) = false
is_known known (none, t) = false

module _ (run_validation : ℕ → Key → RecordsField → Bool → Bool → Result String Data)
    (partial : Bool) (known : List Item) (indices collapsed : Indices) where
  -- One round of the third loop; `run_validation` gets the position of the element and what is read of it
  -- here, whether the update is partial, and whether there is an instance.
  unfoldable pub check_element : ℕ → Checked → Result (List ElementError) Data
  unfolding positions discard conflicting is_known
  check_element idx (failed es) = err es
  check_element idx (keyed k r) =
      let others = discard none (positions k indices) in
      let conflicts = conflicting k collapsed in
      if ltb 1 (length others)
      then err (not_unique (discard (some idx) others) ∷ [])
      else if is_nonempty r && any (λ e. not (is_empty e.1)) conflicts
      then err (conflict conflicts ∷ [])
      else elim (run_validation idx k r (partial && not (not (is_known known k) && is_nonempty r))
          (is_known known k)) [ err e ↦ err (invalid e ∷ []) | ok d ↦ ok d ]

  -- the third loop: the validated elements, or the errors of all elements
  unfoldable pub check_elements : ℕ → List Checked → Result (List (List ElementError)) (List Data)
  unfolding check_element
  check_elements idx [] = ok []
  check_elements idx (c ∷ cs) =
      let rest = check_elements (suc idx) cs in
      elim (check_element idx c) [
        | ok d ↦ elim rest [ ok ds ↦ ok (d ∷ ds) | err es ↦ err ([] ∷ es) ]
        | err e ↦ elim rest [ ok ds ↦ err (e ∷ map (λ d. []) ds) | err es ↦ err (e ∷ es) ]
      ]

-- `to_internal_value` of a list; `known` are the keys of `self.instance`
unfoldable pub to_internal_value :
    (ℕ → Key → RecordsField → Bool → Bool → Result String Data)
    → String
    → Bool
    → List Item
    → List Element
    → Db
    → Result (List (List ElementError)) (List Data)
unfolding check_types index_elements collapse check_elements
to_internal_value run_validation name partial known elements db =
    let checked = map check_types elements in
    let indices = index_elements name db 0 checked [] in
    check_elements run_validation partial known indices (collapse 0 checked indices) 0 checked
