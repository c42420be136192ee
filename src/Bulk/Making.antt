-- ===== src/Bulk/Making.antt =====
-- What a bulk update promises for each key, and what its steps make of the key of an element.
use desec_stack.Common.{
  String, ◌≡◌, refl, sym, ap, ◌∙◌, Bool, true, false, Option, none, some, List, [], ◌∷◌, map, arith,
  if◌then◌else◌, ◌==◌, ==_refl, nat_eq, string_eq, pair_eq, ok, >>=-eq-ok, In, member, is_distinct,
  Dict, get,
}
use desec_stack.Db.{Item, RRset, Db, the_only, rrsets_at}
use desec_stack.Bulk.{
  Data, key_error, Effect, from_db, required, create, update, is_empty_data, index_data, delete_at,
  create_at, update_at,
}
use desec_stack.Bulk.Index.{items_of_data, index-found, index-item}
use desec_stack.Bulk.Steps.{
  IsWritten, Frames, delete_at-rows, create-rows, update-rows, the_only-row, from_db-ok,
  required-some,
}

skip_key :
    {A : Type 0} (i j k : Item) (x y : A) → k ≡ j → (i == j) ≡ false → (if i == k then x else y) ≡ y
skip_key i j k x y e n = ap (λ z. if i == z then x else y) e ∙ by_test (i == j) n
  where
    by_test : (b : Bool) → b ≡ false → (if b then x else y) ≡ y
    by_test true h = absurd (ground arith)
    by_test false h = refl

pub at_key : {A : Type 0} (i k : Item) (x y : A) → k ≡ i → (if i == k then x else y) ≡ x
at_key i k x y e = ap (λ z. if i == z then x else y) e ∙ by_test (i == i) (==_refl i)
  where
    by_test : (b : Bool) → b ≡ true → (if b then x else y) ≡ x
    by_test true h = refl
    by_test false h = absurd (ground arith)

module _ (canonical : String → String → Option String) (name : String) where
  -- The rows under the key of `d` before and behind an update that writes `d`.
  pub data Written (d : Data) (before after : List RRset) : Type 0 where
    created :
        before ≡ []
        → (new : RRset) → after ≡ new ∷ []
        → IsWritten canonical name d none new
        → Written d before after
    updated :
        (old : RRset)
        → before ≡ old ∷ []
        → (new : RRset) → after ≡ new ∷ []
        → IsWritten canonical name d (some old) new
        → Written d before after

  -- What a bulk update promises, for every key of the domain: no row changes that the data do not
  -- name; one that they name without records is gone; any other one is there, as the data say.
  pub record IsUpdated (given : List Data) (before after : Db) : Type 0 where
    pub unnamed :
        (i : Item)
        → member i (items_of_data given) ≡ false
        → rrsets_at name i after.rrsets ≡ rrsets_at name i before.rrsets
    pub emptied :
        (d : Data) → In d given → is_empty_data d ≡ true → rrsets_at name d.item after.rrsets ≡ []
    pub written :
        (d : Data)
        → In d given
        → is_empty_data d ≡ false
        → Written d (rrsets_at name d.item before.rrsets) (rrsets_at name d.item after.rrsets)

  pub delete_at-Frames : Frames name (delete_at name)
  delete_at-Frames i j db c h n = ground (arith, delete_at-rows name i j db c h)

  module _ (given : List Data) where
    abbrev pub index : Dict Item Data
    index = index_data given []

    pub in_index : (i : Item) (d : Data) → get i index ≡ some d → d.item ≡ i
    in_index i d h = index-item i d given [] (λ e k. absurd (unfold get in ground arith)) h

    pub create_at-Frames : Frames name (create_at canonical name index)
    unfolding create_at
    create_at-Frames i j db c h n =
        let (d, e, k) = >>=-eq-ok (required (get j index) key_error) _ h in
        let (new, v, rows) = create-rows canonical name d db c k in
        let z = in_index j d (required-some _ _ e) in
        rows i ∙ skip_key i j d.item (new ∷ []) (rrsets_at name i db.rrsets) z n

    pub update_at-Frames : Frames name (update_at canonical name index)
    unfolding update_at
    update_at-Frames i j db c h n =
        let (r, e, k) = >>=-eq-ok (from_db (the_only (rrsets_at name j db.rrsets))) _ h in
        let (d, f, l) = >>=-eq-ok (required (get j index) key_error) _ k in
        let (_, m, o) = the_only-row name j db.rrsets r (from_db-ok _ e) in
        let z = in_index j d (required-some _ _ f) in
        let (new, v, rows) = update-rows canonical name r d db c m (o ∙ sym z) l in
        rows i
        ∙ skip_key i j d.item (map (λ x. new) (rrsets_at name i db.rrsets))
            (rrsets_at name i db.rrsets) z n

    module _ (apart : is_distinct (items_of_data given) ≡ true) (d : Data)
        (there : In d given) where
      is_indexed : (e : Data) → required (get d.item index) key_error ≡ ok e → e ≡ d
      is_indexed e h =
          let f = index-found d given [] there apart in
          let k : get d.item index ≡ some e = required-some _ _ h in ground arith

      pub create_at-made :
          (db : Db) (c : Effect)
          → create_at canonical name index d.item db ≡ ok c
          → (new : RRset) × (rrsets_at name d.item c.0.rrsets ≡ new ∷ [])
            × IsWritten canonical name d none new
      unfolding create_at
      create_at-made db c h =
          let (x, e, k) = >>=-eq-ok (required (get d.item index) key_error) _ h in
          let (new, v, rows) =
            create-rows canonical name d db c
              (ap (λ y. create canonical name y db) (sym (is_indexed x e)) ∙ k) in
          (
            new,
            rows d.item ∙ at_key d.item d.item (new ∷ []) (rrsets_at name d.item db.rrsets) refl,
            v,
          )

      pub update_at-made :
          (db : Db) (c : Effect)
          → update_at canonical name index d.item db ≡ ok c
          → (old : RRset) × (rrsets_at name d.item db.rrsets ≡ old ∷ [])
            × (new : RRset) × (rrsets_at name d.item c.0.rrsets ≡ new ∷ [])
            × IsWritten canonical name d (some old) new
      unfolding update_at
      update_at-made db c h =
          let (r, e, k) = >>=-eq-ok (from_db (the_only (rrsets_at name d.item db.rrsets))) _ h in
          let (x, f, l) = >>=-eq-ok (required (get d.item index) key_error) _ k in
          let (one, m, o) = the_only-row name d.item db.rrsets r (from_db-ok _ e) in
          let (new, v, rows) =
            update-rows canonical name r d db c m o
              (ap (λ y. update canonical r y db) (sym (is_indexed x f)) ∙ l) in
          (
            r,
            one,
            new,
            rows d.item
                ∙ at_key d.item d.item (map (λ x. new) (rrsets_at name d.item db.rrsets))
                    (rrsets_at name d.item db.rrsets) refl
                ∙ ap (map (λ x. new)) one,
            v,
          )
