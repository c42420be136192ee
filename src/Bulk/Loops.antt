-- ===== src/Bulk/Loops.antt =====
-- A loop over a set of keys: what a step makes of the rows under its key stays.
use desec_stack.Common.{
  String, ◌≡◌, refl, sym, ap, ◌∙◌, inl, inr, true, false, List, [], ◌∷◌, arith, Bool-cases, ◌==◌,
  ==_iff, nat_eq, string_eq, pair_eq, Result, ok, >>=-eq-ok, member, is_distinct,
}
use desec_stack.Db.{Item, Db, rrsets_at}
use desec_stack.Bulk.{BulkError, Effect, each}
use desec_stack.Bulk.Steps.{Frames}

module _ (name : String) (step : Item → Db → Result BulkError Effect)
    (frames : Frames name step) where
  -- the rows under a key that the loop does not come to
  pub each_other :
      (items : List Item) (i : Item) (db : Db) (c : Effect)
      → each step items db ≡ ok c
      → member i items ≡ false
      → rrsets_at name i c.0.rrsets ≡ rrsets_at name i db.rrsets
  unfolding each member
  each_other [] i db c h m =
      let same : db.rrsets ≡ c.0.rrsets = ground arith in ap (rrsets_at name i) (sym same)
  each_other (j ∷ items) i db c h m =
      let (first, e, k) = >>=-eq-ok (step j db) _ h in
      let (rest, f, l) = >>=-eq-ok (each step items first.0) _ k in
      let same : rest.0.rrsets ≡ c.0.rrsets = ground arith in
      ap (rrsets_at name i) (sym same)
      ∙ each_other items i first.0 rest f (ground arith)
      ∙ frames i j db first e (ground arith)

  -- The step that the loop takes at a key, with the rows there before and behind the loop.
  pub record Taken (i : Item) (db after : Db) : Type 0 where
    pub start : Db
    pub done : Effect
    pub taken : step i start ≡ ok done
    pub before : rrsets_at name i start.rrsets ≡ rrsets_at name i db.rrsets
    pub behind : rrsets_at name i after.rrsets ≡ rrsets_at name i done.0.rrsets

  pub each-Taken :
      (items : List Item) (i : Item) (db : Db) (c : Effect)
      → each step items db ≡ ok c
      → is_distinct items ≡ true
      → member i items ≡ true
      → Taken i db c.0
  unfolding each member is_distinct
  each-Taken [] i db c h d m = absurd (ground arith)
  each-Taken (j ∷ items) i db c h d m =
      let (first, e, k) = >>=-eq-ok (step j db) _ h in
      let (rest, f, l) = >>=-eq-ok (each step items first.0) _ k in
      let same : rest.0.rrsets ≡ c.0.rrsets = ground arith in
      elim (Bool-cases (i == j)) [
        | inl q ↦
            (let z : i ≡ j = (==_iff i j).0 q in
              record {
                start = db;
                done = first;
                taken = ap (λ (x : Item). step x db) z ∙ e;
                before = refl;
                behind =
                    ap (rrsets_at name i) (sym same)
                    ∙ each_other items i first.0 rest f
                        (ap (λ (x : Item). member x items) z ∙ ground arith);
              })
        | inr q ↦
            (let t = each-Taken items i first.0 rest f (ground arith) (ground arith) in
              record {
                start = t.start;
                done = t.done;
                taken = t.taken;
                before = t.before ∙ frames i j db first e q;
                behind = ap (rrsets_at name i) (sym same) ∙ t.behind;
              })
      ]
