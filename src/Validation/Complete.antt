-- ===== src/Validation/Complete.antt =====
-- The index knows the types that the database has under each subname it was asked for.
use desec_stack.Common.{
  ℕ, suc, String, ◌≡◌, refl, sym, ap, ◌∙◌, inl, inr, Bool, true, false, Option, none, some, List,
  [], ◌∷◌, arith, if◌then◌else◌, ◌==◌, ==_iff, ==_refl, nat_eq, string_eq, pair_eq, option_eq, In,
  member, add, member-add, get, put, get-put,
}
use desec_stack.Db.{Db}
use desec_stack.Validation.{
  RecordsField, Key, Position, Indices, Checked, failed, keyed, or_empty, positions, set_positions,
  database_types, types_at, is_set, ensure_subname, index_element, index_elements,
}
use desec_stack.Validation.Index.{positions-set_positions}

database_types-get :
    (t : String) (types : List String)
    → member t types ≡ true
    → get (some t) (database_types types) ≡ some (none ∷ [])
unfolding database_types member
database_types-get t [] h = absurd (ground arith)
database_types-get t (u ∷ types) h = ground (
  arith,
  get-put (some t) (some u) (none ∷ []) (database_types types),
  database_types-get t types,
  ==_iff t u,
)

-- a subname that the index does not have yet
added_subname :
    (u s : Option String) (t : String) (types : List String) (indices : Indices)
    → positions (u, some t) (put s (database_types types) indices) ≡ (
        if u == s
        then or_empty (get (some t) (database_types types))
        else positions (u, some t) indices)
unfolding positions
added_subname u s t types indices = ground (arith, get-put u s (database_types types) indices)

known_type :
    (t : String) (types : List String)
    → member t types ≡ true
    → member none (or_empty (get (some t) (database_types types))) ≡ true
unfolding member
known_type t types m = rw (database_types-get t types m)

choose_member :
    (b : Bool) (xs ys : List Position)
    → (b ≡ true → member none xs ≡ true)
    → (b ≡ false → member none ys ≡ true)
    → member none (if b then xs else ys) ≡ true
choose_member true xs ys f g = f refl
choose_member false xs ys f g = g refl

module _ (name : String) (db : Db) where
  -- Under a subname that is in the index, so are the types of the database.
  abbrev pub IsComplete : Indices → Type 0
  IsComplete indices =
      (s : Option String) (t : String)
      → is_set (get s indices) ≡ true
      → member t (types_at name s db) ≡ true
      → member none (positions (s, some t) indices) ≡ true

  ensure_subname-IsComplete :
      (s : Option String) (indices : Indices)
      → IsComplete indices
      → IsComplete (ensure_subname s (types_at name s db) indices)
  unfolding ensure_subname
  ensure_subname-IsComplete s indices c = split (is_set (get s indices))
    where
      added : Indices
      added = put s (database_types (types_at name s db)) indices

      fresh : IsComplete added
      fresh u t h m =
          ap (member none) (added_subname u s t (types_at name s db) indices)
          ∙ choose_member (u == s) (or_empty (get (some t) (database_types (types_at name s db))))
              (positions (u, some t) indices)
              (λ e.
                known_type t (types_at name s db)
                  (ap (λ x. member t (types_at name x db)) (sym ((==_iff u s).0 e)) ∙ m))
              (λ e.
                c u t (ground (arith, get-put u s (database_types (types_at name s db)) indices)) m)

      split : (b : Bool) → IsComplete (if b then indices else added)
      split true = c
      split false = fresh

  ensure_subname-is_set :
      (s u : Option String) (indices : Indices)
      → (is_set (get s (ensure_subname s (types_at name s db) indices)) ≡ true)
        × (is_set (get u indices) ≡ true
            → is_set (get u (ensure_subname s (types_at name s db) indices)) ≡ true)
  unfolding ensure_subname
  ensure_subname-is_set s u indices = (
    ground (arith, get-put s s (database_types (types_at name s db)) indices, ==_refl s),
    λ h. ground (arith, get-put u s (database_types (types_at name s db)) indices),
  )

  set_positions-is_set :
      (k : Key) (u : Option String) (p : List Position) (indices : Indices)
      → is_set (get k.0 indices) ≡ true
      → is_set (get u (set_positions k p indices)) ≡ is_set (get u indices)
  unfolding set_positions
  set_positions-is_set k u p indices h = ground (
    arith,
    get-put u k.0 (put k.1 p (or_empty (get k.0 indices))) indices,
    ==_iff u k.0,
    ap (λ x. is_set (get x indices)),
  )

  index_element-IsComplete :
      (idx : ℕ) (c : Checked) (indices : Indices)
      → IsComplete indices
      → IsComplete (index_element name db idx c indices)
  unfolding index_element
  index_element-IsComplete idx (failed es) indices v s t h m = v s t h m
  index_element-IsComplete idx (keyed k r) indices v s t h m =
      ap (member none) (positions-set_positions (s, some t) k grown known)
      ∙ choose_member ((s, some t) == k) grown (positions (s, some t) known)
          (λ e.
            member-add none (some idx) (positions k known)
            ∙ ground (
              arith,
              ap (λ (x : Key). member none (positions x known)) (sym ((==_iff (s, some t) k).0 e)),
              there,
            ))
          (λ e. there)
    where
      known : Indices
      known = ensure_subname k.0 (types_at name k.0 db) indices

      grown : List Position
      grown = add (some idx) (positions k known)

      there : member none (positions (s, some t) known) ≡ true
      there =
          ensure_subname-IsComplete k.0 indices v s t
            (sym (set_positions-is_set k s grown known (ensure_subname-is_set k.0 s indices).0) ∙ h)
            m

  index_element-is_set :
      (idx : ℕ) (c : Checked) (u : Option String) (indices : Indices)
      → is_set (get u indices) ≡ true
      → is_set (get u (index_element name db idx c indices)) ≡ true
  unfolding index_element
  index_element-is_set idx (failed es) u indices h = h
  index_element-is_set idx (keyed k r) u indices h =
      let known = ensure_subname k.0 (types_at name k.0 db) indices in
      set_positions-is_set k u (add (some idx) (positions k known)) known
        (ensure_subname-is_set k.0 u indices).0
      ∙ (ensure_subname-is_set k.0 u indices).1 h

  index_element-subname :
      (idx : ℕ) (k : Key) (r : RecordsField) (indices : Indices)
      → is_set (get k.0 (index_element name db idx (keyed k r) indices)) ≡ true
  unfolding index_element
  index_element-subname idx k r indices =
      let known = ensure_subname k.0 (types_at name k.0 db) indices in
      set_positions-is_set k k.0 (add (some idx) (positions k known)) known
        (ensure_subname-is_set k.0 k.0 indices).0
      ∙ (ensure_subname-is_set k.0 k.0 indices).0

  index_elements-is_set :
      (idx : ℕ) (cs : List Checked) (u : Option String) (indices : Indices)
      → is_set (get u indices) ≡ true
      → is_set (get u (index_elements name db idx cs indices)) ≡ true
  unfolding index_elements
  index_elements-is_set idx [] u indices h = h
  index_elements-is_set idx (c ∷ cs) u indices h =
      index_elements-is_set (suc idx) cs u (index_element name db idx c indices)
        (index_element-is_set idx c u indices h)

  pub index_elements-IsComplete :
      (idx : ℕ) (cs : List Checked) (indices : Indices)
      → IsComplete indices
      → IsComplete (index_elements name db idx cs indices)
  unfolding index_elements
  index_elements-IsComplete idx [] indices v s t h m = v s t h m
  index_elements-IsComplete idx (c ∷ cs) indices v s t h m =
      index_elements-IsComplete (suc idx) cs (index_element name db idx c indices)
        (index_element-IsComplete idx c indices v) s t h m

  pub index_elements-subname :
      (idx : ℕ) (cs : List Checked) (k : Key) (r : RecordsField) (indices : Indices)
      → In (keyed k r) cs
      → is_set (get k.0 (index_elements name db idx cs indices)) ≡ true
  unfolding index_elements
  index_elements-subname idx [] k r indices i = absurd i
  index_elements-subname idx (c ∷ cs) k r indices (inl e) =
      index_elements-is_set (suc idx) cs k.0 (index_element name db idx c indices) (
        ap (λ x. is_set (get k.0 (index_element name db idx x indices))) (sym e)
        ∙ index_element-subname idx k r indices)
  index_elements-subname idx (c ∷ cs) k r indices (inr i) =
      index_elements-subname (suc idx) cs k r (index_element name db idx c indices) i
