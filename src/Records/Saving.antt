-- ===== src/Records/Saving.antt =====
-- What `save_records` stores, and what it signals.
use desec_stack.Common.{
  ◌+◌, String, ◌≡◌, refl, ◌∙◌, Bool, true, false, not, ◌||◌, Option, none, some, List, [], ◌∷◌,
  ◌++◌, map, arith, if◌then◌else◌, ◌==◌, nat_eq, string_eq, pair_eq, ok, >>=-eq-ok, length, keep,
  any, all, is_empty, member, difference, member-keep, member-append, member-difference,
  member-is_empty, is_distinct, is_distinct-keep, is_distinct-append,
}
use desec_stack.Db.{Item, RRset}
use desec_stack.Tracker.{Signal, rr_deleted, rr_set_saved}
use desec_stack.Records.{RecordError, clean_shape, clean_contents, clean_records, save_records}

-- `x` is a presentation of the canonical content `c`.
abbrev pub presents : (String → String → Option String) → String → String → String → Bool
presents canonical type c x = elim (canonical x type) [ none ↦ false | some d ↦ c == d ]

abbrev pub is_valid_content : (String → String → Option String) → String → String → Bool
is_valid_content canonical type x = elim (canonical x type) [ none ↦ false | some d ↦ true ]

module _ (canonical : String → String → Option String) where
  -- what a loop without errors has found
  record IsCleaned (type : String) (records found result : List String) : Type 0 where
    contents :
        (c : String) → member c result ≡ (any (presents canonical type c) records || member c found)
    valid : all (is_valid_content canonical type) records ≡ true
    apart : is_distinct found ≡ true → is_distinct result ≡ true
    counted : length result ≡ length records + length found

  clean_contents-IsCleaned :
      (type : String) (records found result : List String)
      → clean_contents canonical type records found ≡ ([], result)
      → IsCleaned type records found result
  unfolding clean_contents
  clean_contents-IsCleaned type [] found result h =
      let e : found ≡ result = ground arith in
      rw (← e)
        (record { contents = λ c. refl; valid = refl; apart = λ d. d; counted = omega arith })
  clean_contents-IsCleaned type (r ∷ rs) found result h =
      split (canonical r type) refl (λ f. clean_contents-IsCleaned type rs f result)
    where
      split :
          (o : Option String)
          → canonical r type ≡ o
          → ((f : List String)
              → clean_contents canonical type rs f ≡ ([], result)
              → IsCleaned type rs f result)
          → IsCleaned type (r ∷ rs) found result
      split none e ih = absurd (ground arith)
      split (some c) e ih =
          let fresh : member c found ≡ false = ground arith in
          let v = ih (c ∷ found) (ground arith) in
          record {
            contents = λ d. (ground (arith, v.contents d));
            valid = ground (arith, v.valid);
            apart = λ d. v.apart (unfold is_distinct in ground arith);
            counted = omega (arith, v.counted);
          }

  -- What saving `records` makes of `r`: only the contents change; each one given is valid; the
  -- contents are then those that the given records present; no content stands twice if none did;
  -- and without a signal the contents are the ones that were there.
  pub record IsSaved (r : RRset) (records : List String) (r' : RRset) (signals : List Signal)
      : Type 0 where
    pub only_records : r' ≡ record r { records = r'.records }
    pub fitting : clean_shape r.item records ≡ []
    pub valid : all (is_valid_content canonical r.item.0) records ≡ true
    pub contents : (c : String) → member c r'.records ≡ any (presents canonical r.item.0 c) records
    pub apart : is_distinct r.records ≡ true → is_distinct r'.records ≡ true
    pub quiet : is_empty signals ≡ true → (c : String) → member c r'.records ≡ member c r.records

  clean_records-IsCleaned :
      (item : Item) (records new : List String)
      → clean_records canonical item records ≡ ok new
      → IsCleaned item.0 records [] new × (clean_shape item records ≡ [])
  unfolding clean_records
  clean_records-IsCleaned item records new h =
      let none_failed : is_empty
            (clean_shape item records ++ (clean_contents canonical item.0 records []).0)
          ≡ true =
        ground arith in
      let (a, b) =
        both_empty (clean_shape item records) (clean_contents canonical item.0 records []).0
          none_failed in
      let e : clean_contents canonical item.0 records [] ≡ ([], new) = ground arith in
      (clean_contents-IsCleaned item.0 records [] new e, a)
    where
      both_empty : (xs ys : List RecordError) → is_empty (xs ++ ys) ≡ true → (xs ≡ []) × (ys ≡ [])
      both_empty [] [] k = (refl, refl)
      both_empty [] (y ∷ ys) k = absurd (ground arith)
      both_empty (x ∷ xs) ys k = absurd (ground arith)

  -- the contents that remain and the ones that are added
  unchanged-added :
      (c : String) (old new : List String)
      → member c (keep (λ x. member x new) old ++ difference new (keep (λ x. member x new) old))
        ≡ member c new
  unchanged-added c old new = ground (
    arith,
    member-append c (keep (λ x. member x new) old) (difference new (keep (λ x. member x new) old)),
    member-difference c new (keep (λ x. member x new) old),
    member-keep c (λ x. member x new) old,
  )

  stored-apart :
      (old new : List String)
      → is_distinct old ≡ true
      → is_distinct new ≡ true
      → is_distinct (keep (λ x. member x new) old ++ difference new (keep (λ x. member x new) old))
        ≡ true
  unfolding difference
  stored-apart old new h k =
      is_distinct-append (keep (λ x. member x new) old)
        (difference new (keep (λ x. member x new) old)) (is_distinct-keep (λ x. member x new) old h)
        (is_distinct-keep (λ x. not (member x (keep (λ y. member y new) old))) new k)
        (λ x m. ground (arith, member-difference x new (keep (λ y. member y new) old)))

  nothing_signalled :
      (f : String → Signal) (removed added : List String) (saved : Signal)
      → is_empty (map f removed ++ (if is_empty added then [] else saved ∷ [])) ≡ true
      → (is_empty removed ≡ true) × (is_empty added ≡ true)
  nothing_signalled f [] [] saved h = (refl, refl)
  nothing_signalled f [] (x ∷ added) saved h = absurd (ground arith)
  nothing_signalled f (x ∷ removed) added saved h = absurd (ground arith)

  -- old and new contents of which none is removed or added
  same_contents :
      (c : String) (old new : List String)
      → is_empty (keep (λ x. not (member x new)) old) ≡ true
      → is_empty (difference new (keep (λ x. member x new) old)) ≡ true
      → member c new ≡ member c old
  same_contents c old new h k = ground (
    arith,
    member-is_empty c (keep (λ x. not (member x new)) old) h,
    member-is_empty c (difference new (keep (λ x. member x new) old)) k,
    member-difference c new (keep (λ x. member x new) old),
    member-keep c (λ x. member x new) old,
    member-keep c (λ x. not (member x new)) old,
  )

  -- `save_records`, when it raises nothing, makes the contents of the RR set exactly the canonical
  -- forms of the given records, each of which is valid, and changes nothing else; no content stands
  -- twice if none did before; and if no signal is sent the contents are the ones that were there.
  pub save_records-IsSaved :
      (r : RRset) (records : List String) (r' : RRset) (signals : List Signal)
      → save_records canonical r records ≡ ok (r', signals)
      → IsSaved r records r' signals
  unfolding save_records
  save_records-IsSaved r records r' signals h =
      let (new, e, k) = >>=-eq-ok (clean_records canonical r.item records) _ h in
      let (v, shape) = clean_records-IsCleaned r.item records new e in
      let unchanged = keep (λ c. member c new) r.records in
      let whole : record r { records = unchanged ++ difference new unchanged } ≡ r' =
        ground arith in
      let same : unchanged ++ difference new unchanged ≡ r'.records = ground arith in
      let sent : map (λ c. rr_deleted (some (r.domain, r.item)))
              (keep (λ c. not (member c new)) r.records)
            ++ (if is_empty (difference new unchanged)
                then []
                else rr_set_saved r.domain r.item false ∷ [])
          ≡ signals =
        ground arith in
      record {
        only_records = rw (← whole) refl;
        fitting = shape;
        valid = v.valid;
        contents = λ c. rw (← same) (unchanged-added c r.records new ∙ v.contents c ∙ in_none c);
        apart =
            λ d. rw (← same) (stored-apart r.records new d (v.apart (unfold is_distinct in refl)));
        quiet = λ q c.
            (let (x, y) =
                nothing_signalled (λ c. rr_deleted (some (r.domain, r.item)))
                  (keep (λ c. not (member c new)) r.records) (difference new unchanged)
                  (rr_set_saved r.domain r.item false) (rw sent q) in
              rw (← same) (unchanged-added c r.records new ∙ same_contents c r.records new x y));
      }
    where
      in_none :
          (c : String)
          → (any (presents canonical r.item.0 c) records || member c [])
            ≡ any (presents canonical r.item.0 c) records
      in_none c = unfold member in ground arith
