-- ===== src/Validation/Index.antt =====
-- The index of the keys: every element is found in it under its key.
use desec_stack.Common.{
  ℕ, suc, String, ◌≡◌, true, Option, some, List, [], ◌∷◌, arith, if◌then◌else◌, ◌==◌, ==_iff,
  ==_refl, nat_eq, string_eq, pair_eq, option_eq, member, add, member-add, get, put, get-put,
}
use desec_stack.Db.{Db}
use desec_stack.Validation.{
  RecordsField, Key, Position, Indices, Checked, failed, keyed, or_empty, positions, set_positions,
  database_types, types_at, ensure_subname, index_element, index_elements,
}

pub positions-set_positions :
    (k j : Key) (p : List Position) (indices : Indices)
    → positions k (set_positions j p indices) ≡ (if k == j then p else positions k indices)
unfolding positions set_positions
positions-set_positions k j p indices = ground (
  arith,
  get-put k.0 j.0 (put j.1 p (or_empty (get j.0 indices))) indices,
  get-put k.1 j.1 p (or_empty (get j.0 indices)),
  ==_iff k.0 j.0,
  ==_iff k.1 j.1,
)

-- what is known is not lost
ensure_subname-member :
    (p : Position) (k : Key) (s : Option String) (types : List String) (indices : Indices)
    → member p (positions k indices) ≡ true
    → member p (positions k (ensure_subname s types indices)) ≡ true
unfolding ensure_subname positions member
ensure_subname-member p k s types indices h =
    ground (arith, get-put k.0 s (database_types types) indices, ==_iff k.0 s)

-- Every element with a key has its position under the key.
abbrev pub IsIndexed : ℕ → List Checked → Indices → Type 0
IsIndexed idx [] indices = Unit {0}
IsIndexed idx (failed es ∷ cs) indices = IsIndexed (suc idx) cs indices
IsIndexed idx (keyed k r ∷ cs) indices =
    (member (some idx) (positions k indices) ≡ true) × IsIndexed (suc idx) cs indices

module _ (name : String) (db : Db) where
  index_element-member :
      (p : Position) (k : Key) (idx : ℕ) (c : Checked) (indices : Indices)
      → member p (positions k indices) ≡ true
      → member p (positions k (index_element name db idx c indices)) ≡ true
  unfolding index_element
  index_element-member p k idx (failed es) indices h = h
  index_element-member p k idx (keyed j r) indices h =
      let known = ensure_subname j.0 (types_at name j.0 db) indices in
      let a = ensure_subname-member p k j.0 (types_at name j.0 db) indices h in
      ground (
        arith,
        a,
        positions-set_positions k j (add (some idx) (positions j known)) known,
        member-add p (some idx) (positions j known),
        ==_iff k j,
      )

  index_element-here :
      (idx : ℕ) (k : Key) (r : RecordsField) (indices : Indices)
      → member (some idx) (positions k (index_element name db idx (keyed k r) indices)) ≡ true
  unfolding index_element
  index_element-here idx k r indices =
      let known = ensure_subname k.0 (types_at name k.0 db) indices in
      ground (
        arith,
        positions-set_positions k k (add (some idx) (positions k known)) known,
        member-add (some idx) (some idx) (positions k known),
        ==_refl k,
      )

  pub index_elements-member :
      (p : Position) (k : Key) (idx : ℕ) (cs : List Checked) (indices : Indices)
      → member p (positions k indices) ≡ true
      → member p (positions k (index_elements name db idx cs indices)) ≡ true
  unfolding index_elements
  index_elements-member p k idx [] indices h = h
  index_elements-member p k idx (c ∷ cs) indices h =
      index_elements-member p k (suc idx) cs (index_element name db idx c indices)
        (index_element-member p k idx c indices h)

  pub index_elements-IsIndexed :
      (idx : ℕ) (cs : List Checked) (indices : Indices)
      → IsIndexed idx cs (index_elements name db idx cs indices)
  unfolding index_elements
  index_elements-IsIndexed idx [] indices = tt
  index_elements-IsIndexed idx (failed es ∷ cs) indices =
      index_elements-IsIndexed (suc idx) cs (index_element name db idx (failed es) indices)
  index_elements-IsIndexed idx (keyed k r ∷ cs) indices = (
    index_elements-member (some idx) k (suc idx) cs (index_element name db idx (keyed k r) indices)
        (index_element-here idx k r indices),
    index_elements-IsIndexed (suc idx) cs (index_element name db idx (keyed k r) indices),
  )
