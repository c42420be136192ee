-- ===== src/Element/Content.antt =====
-- serializers/records.py `RRsetSerializer`: what each test of the validation says of the RR set.
use desec_stack.Common.{
  ℕ, suc, ◌+◌, ◌*◌, ◌≤◌, String, ◌≡◌, refl, sym, ap, ◌∙◌, ◌⊎◌, inl, inr, true, false, ◌&&◌, Option,
  none, some, List, [], ◌∷◌, map, arith, ltb, nat_beq_iff, Bool-cases, Option-cases, Eq, ◌==◌,
  ==_iff, nat_eq, string_eq, pair_eq, option_eq, Result, ok, ok_same, length, any, In, any-In,
  member, add, to_set, member-to_set, is_distinct,
}
use Prim.Native.String.{len}
use desec_stack.Db.{RRset}
use desec_stack.Context.Data.{construct_name}
use desec_stack.Element.{Attrs, Setting, Services, Rejection, type_of, check_permission}
use desec_stack.Element.Validate.{has_duplicates, total_size, conservative_total_length, is_locked}

-- the number of characters of all records
abbrev pub text_total : List String → ℕ
text_total [] = 0
text_total (content ∷ records) = len content + text_total records

abbrev pub or_else : Option String → String → String
or_else none text = text
or_else (some v) text = v

total_size-text_total :
    (records : List String) → total_size records ≡ 12 * length records + text_total records
unfolding total_size
total_size-text_total [] = refl
total_size-text_total (content ∷ records) =
    let rest = total_size-text_total records in omega (arith, rest)

module _ {A : Type 0} ⦃values : Eq A⦄ where
  length-to_set : (xs : List A) → length (to_set xs) ≤ length xs
  unfolding to_set add
  length-to_set [] = omega arith
  length-to_set (x ∷ xs) = let rest = length-to_set xs in ground arith

  -- A list that is as long as its set has nothing twice.
  is_distinct-length : (xs : List A) → length (to_set xs) ≡ length xs → is_distinct xs ≡ true
  unfolding to_set add is_distinct
  is_distinct-length [] h = refl
  is_distinct-length (x ∷ xs) h =
      let shorter = length-to_set xs in
      let same = member-to_set x xs in
      elim (Bool-cases (member x (to_set xs))) [
        | inl e ↦ absurd (ground arith)
        | inr e ↦ (let rest = is_distinct-length xs (ground arith) in ground arith)
      ]

length-map : {A B : Type 0} (f : A → B) (xs : List A) → length (map f xs) ≡ length xs
length-map f [] = refl
length-map f (x ∷ xs) = ap suc (length-map f xs)

short_distinct : (xs : List String) → ltb 1 (length xs) ≡ false → is_distinct xs ≡ true
unfolding is_distinct member
short_distinct [] h = refl
short_distinct (x ∷ []) h = refl
short_distinct (x ∷ y ∷ xs) h = absurd (ground arith)

pub wire_distinct :
    (s : Services) (type : String) (records : List String)
    → has_duplicates s type records ≡ false
    → is_distinct (map (s.to_wire type) records) ≡ true
unfolding has_duplicates
wire_distinct s type records h =
    let wires = map (s.to_wire type) records in
    let same = length-map (s.to_wire type) records in
    elim (Bool-cases (ltb 1 (length records))) [
      | inr e ↦ short_distinct wires (rw same e)
      | inl e ↦
          (let equal : length records ≡ length (to_set wires) =
              (nat_beq_iff (length records) (length (to_set wires))).0 (ground arith) in
            is_distinct-length wires (sym equal ∙ sym same))
    ]

pub size_text :
    (c : Setting) (subname : Option String) (records : List String)
    → conservative_total_length c subname records ≤ 65535
    → 288
        + len (construct_name (or_else subname "") c.domain)
        + 12 * length records
        + text_total records
      ≤ 65535
unfolding conservative_total_length
size_text c none records h = let e = total_size-text_total records in omega (arith, e, h)
size_text c (some v) records h = let e = total_size-text_total records in omega (arith, e, h)

pub type_of-parts :
    (c : Setting) (a : Attrs) (type : String)
    → type_of c a ≡ ok type
    → ((v : String) → a.type ≡ some v → (v == "") ≡ false → type ≡ v)
      × (a.type ≡ none → (r : RRset) × (c.instance_of ≡ some r) × (type ≡ r.item.0))
unfolding type_of
type_of-parts c a type h = (
  λ v e n.
      let f : ◌≡◌ {A = Result Rejection String} (ok v) (ok type) = ground arith in sym (ok_same f),
  λ e. elim (Option-cases c.instance_of) [
    | inl i ↦ absurd (ground arith)
    | inr (r, i) ↦ (r, i, ground arith)
  ],
)

pub check_permission-parts :
    (s : Services) (c : Setting) (a : Attrs) (type : String)
    → check_permission s c a ≡ ok tt
    → type_of c a ≡ ok type
    → (subname : String) × ((a.subname ≡ some subname)
        ⊎ ((a.subname ≡ none) × (c.view_subname ≡ some subname)))
      × (s.permits (type, subname) ≡ true)
unfolding check_permission
check_permission-parts s c a type h t = elim (Option-cases a.subname) [
  | inr (v, e) ↦ (
    v,
    inl e,
    elim (Bool-cases (s.permits (type, v))) [ inl p ↦ p | inr p ↦ absurd (ground arith) ],
  )
  | inl e ↦ elim (Option-cases c.view_subname) [
    | inl f ↦ absurd (ground arith)
    | inr (v, f) ↦ (
      v,
      inr (e, f),
      elim (Bool-cases (s.permits (type, v))) [ inl p ↦ p | inr p ↦ absurd (ground arith) ],
    )
  ]
]

pub unlocked :
    (c : Setting) (type : String) (a : Attrs)
    → is_locked c type a ≡ ok false
    → type ≡ "NS"
    → c.is_locally_registrable ≡ true
    → (a.records ≡ some [])
      × (r : RRset) × (c.instance_of ≡ some r)
      × ((or_else a.subname r.item.1 == "") ≡ false)
unfolding is_locked
unlocked c type a h e l =
    let ns = (==_iff type "NS").1 e in
    elim (Option-cases c.instance_of) [
      | inl i ↦ absurd (ground arith)
      | inr (r, i) ↦ (ground arith, r, i, ground arith)
    ]

-- the blocked contents of an address set are refused
pub unblocked :
    (s : Services) (c : Setting) (type : String) (records : List String)
    → (type == "A" && c.is_locally_registrable && any s.is_blocked records) ≡ false
    → type ≡ "A"
    → c.is_locally_registrable ≡ true
    → (content : String) → In content records
    → s.is_blocked content ≡ false
unblocked s c type records h e l content i =
    let address = (==_iff type "A").1 e in
    elim (Bool-cases (s.is_blocked content)) [
      | inr b ↦ b
      | inl b ↦
          (let some_blocked = any-In s.is_blocked content records i b in absurd (ground arith))
    ]
