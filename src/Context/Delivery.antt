-- ===== src/Context/Delivery.antt =====
-- What reaches the name servers when the loop of `__exit__` ends: the RR sets that the changes write
-- are sent with the time to live and the records that the database holds, the cleared ones with none.
use desec_stack.Common.{
  String, ◌≡◌, refl, sym, ap, ◌∙◌, inl, inr, Bool, true, false, not, ◌&&◌, List, [], ◌∷◌, ◌++◌, map,
  arith, if◌then◌else◌, Bool-cases, ◌==◌, ==_iff, nat_eq, string_eq, pair_eq, option_eq, Result, ok,
  >>=-eq-ok, Result-cases, passed, keep, any, In, In-append_left, In-append_right, In-map, In-keep,
  In-member, add, union, difference, is_distinct,
}
use desec_stack.Db.{
  Item, Domain, Db, the_only, DbError, rrsets_at, ttl_of, contents_at, insert_rrset,
}
use desec_stack.Changes.{Change, create_domain, delete_domain, update_rr_sets}
use desec_stack.Changes.Parts.{writes, clears, creates}
use desec_stack.Context.Data.{
  RRsetData, Call, update_zone, Settings, cleared_data, written_data, all_written_data, rrsets_data,
  axfr_required, domain_name, get_domain, default_rrset,
}
use desec_stack.Context.Effects.{
  World, Action, ◌>>=◌, pure, query, write_db, perform, Within, Within-pure, Within-query,
  Within-bind, Within-if, >>=-returns,
}
use desec_stack.Context.{send_data, pdns_do, api_do, pch_do, make_change, make_changes}
use desec_stack.Context.Applying.{finish, finish-Grows}
use desec_stack.Context.Applying.{Grows, In-Grows, make_changes-Grows, perform-log}

-- The item of the RR set that `CreateDomain.api_do` makes.
abbrev pub apex_ns : Item
apex_ns = ("NS", "")

-- An update of the zone has been sent that has the entry.
abbrev pub Delivered : String → RRsetData → List Call → Type 0
Delivered n e log = (data_ : List RRsetData) × In (update_zone n data_) log × In e data_

-- A change of the database does not touch what is sent of an RR set.
record SameData (n : String) (x : Item) (w v : World) : Type 0 where
  same : written_data n v.db x ≡ written_data n w.db x

SameData-refl : (n : String) (x : Item) (w : World) → SameData n x w w
SameData-refl n x w = record { same = refl }

SameData-trans :
    (n : String) (x : Item) (u v w : World) → SameData n x u v → SameData n x v w → SameData n x u w
SameData-trans n x u v w h k = record { same = k.same ∙ h.same }

-- The change makes the RR set: it creates the domain, whose apex NS set this is.
abbrev pub makes_apex : String → Item → Change → Bool
makes_apex n x c = creates n c && x == apex_ns

the_only-In : {A : Type 0} (xs : List A) {a : A} → the_only xs ≡ ok a → In a xs
unfolding the_only
the_only-In [] h = absurd (ground arith)
the_only-In (x ∷ []) h = inl (ground arith)
the_only-In (x ∷ y ∷ xs) h = absurd (ground arith)

get_domain-name : (m : String) (db : Db) {d : Domain} → get_domain m db ≡ ok d → d.name ≡ m
unfolding get_domain
get_domain-name m db {d} h =
    let named : Domain → Bool = λ e. e.name == m in
    let (_, e) = In-keep named d db.domains (the_only-In (keep named db.domains) h) in
    (==_iff d.name m).0 e

rrsets_at-default_rrset :
    (s : Settings) (m : String) (db : Db) {db' : Db} (n : String) (x : Item)
    → default_rrset s m db ≡ ok db'
    → (n == m && x == apex_ns) ≡ false
    → rrsets_at n x db'.rrsets ≡ rrsets_at n x db.rrsets
unfolding default_rrset insert_rrset rrsets_at keep get_domain the_only
rrsets_at-default_rrset s m db {db'} n x h ne =
    let (d, f, k) = >>=-eq-ok (get_domain m db) _ h in
    let (_, l) = passed (not (is_distinct s.default_ns)) _ _ k in
    let named = get_domain-name m db f in
    ground (arith, ==_iff apex_ns x, ==_iff x apex_ns, ==_iff n m, ==_iff m n, ==_iff d.name n)

all_written-In :
    (n : String) (db : Db) (items : List Item) {ds : List RRsetData} (x : Item)
    → all_written_data n db items ≡ ok ds
    → In x items
    → (e : RRsetData) × (written_data n db x ≡ ok e) × In e ds
unfolding all_written_data
all_written-In n db [] x h p = absurd p
all_written-In n db (y ∷ ys) {ds} x h p =
    let (first, e1, h1) = >>=-eq-ok (written_data n db y) _ h in
    let (rest, e2, h2) = >>=-eq-ok (all_written_data n db ys) _ h1 in
    let same : first ∷ rest ≡ ds = ground arith in
    rw (← same) (found first e1 rest (all_written-In n db ys {ds = rest} x e2) p)
  where
    found :
        (first : RRsetData)
        → written_data n db y ≡ ok first
        → (rest : List RRsetData)
        → (In x ys → (e : RRsetData) × (written_data n db x ≡ ok e) × In e rest)
        → In x (y ∷ ys)
        → (e : RRsetData) × (written_data n db x ≡ ok e) × In e (first ∷ rest)
    found first e1 rest later (inl q) = (first, rw q e1, inl refl)
    found first e1 rest later (inr q) = let (e, h, k) = later q in (e, h, inr k)

-- The entries of an update: each written item, and each cleared one.
rrsets_data-In :
    (n : String) (db : Db) (a m d : List Item) {ds : List RRsetData}
    → rrsets_data n db a m d ≡ ok ds
    → ((x : Item)
        → In x (difference (union a m) d)
        → (e : RRsetData) × (written_data n db x ≡ ok e) × In e ds)
      × ((x : Item) → In x d → In (cleared_data n x) ds)
unfolding rrsets_data
rrsets_data-In n db a m d {ds} h =
    let (written, e, h1) = >>=-eq-ok (all_written_data n db (difference (union a m) d)) _ h in
    let same : map (cleared_data n) d ++ written ≡ ds = ground arith in
    rw (← same) (
      (λ x p.
          let (y, f, g) = all_written-In n db _ x e p in
          (y, f, In-append_right y (map (cleared_data n) d) written g)),
      (λ x p. In-append_left _ _ written (In-map (cleared_data n) x d p)),
    )

module _ (settings : Settings) (accepts : List Call → Call → Bool) where
  send_data-Delivered :
      (n : String) (ds : List RRsetData) (e : RRsetData) (w : World)
      → In e ds
      → Delivered n e (send_data settings accepts n ds w).1.log
  unfolding send_data perform
  send_data-Delivered n [] e w p = absurd p
  send_data-Delivered n (x ∷ xs) e w p = (
    x ∷ xs,
    rw (perform-log settings accepts)
        (In-append_right _ w.log (update_zone n (x ∷ xs) ∷ []) (inl refl)),
    p,
  )

  -- Where the sending of an update ends well, all its entries have been delivered.
  pdns_do-Delivered :
      (n : String) (a m d : List Item) (w : World)
      → (pdns_do settings accepts (update_rr_sets n a m d) w).0 ≡ ok tt
      → ((x : Item)
          → In x (difference (union a m) d)
          → (e : RRsetData) × (written_data n w.db x ≡ ok e)
            × Delivered n e (pdns_do settings accepts (update_rr_sets n a m d) w).1.log)
        × ((x : Item)
            → In x d
            → Delivered n
                (cleared_data n x)
                (pdns_do settings accepts (update_rr_sets n a m d) w).1.log)
  unfolding pdns_do query
  pdns_do-Delivered n a m d w h =
      let (ds, e, f, g) =
        >>=-returns (query (λ db. rrsets_data n db a m d)) (send_data settings accepts n) w h in
      let data_eq : rrsets_data n w.db a m d ≡ ok ds = ground arith in
      let (sent, cleared) = rrsets_data-In n w.db a m d data_eq in
      rw g (
        (λ x p. let (y, e1, k) = sent x p in (y, e1, send_data-Delivered n ds y w k)),
        (λ x p. send_data-Delivered n ds (cleared_data n x) w (cleared x p)),
      )

  Delivered-Grows :
      (n : String) (e : RRsetData) (w v : World)
      → Grows w v
      → Delivered n e w.log
      → Delivered n e v.log
  Delivered-Grows n e w v g (ds, p, q) = (ds, In-Grows (update_zone n ds) w v g p, q)

  module _ (n : String) (x : Item) where
    api_do-SameData :
        (c : Change) → makes_apex n x c ≡ false → Within (SameData n x) (api_do settings accepts c)
    unfolding api_do query write_db pure ◌>>=◌
    api_do-SameData (create_domain m) apart = record {
      at = λ w. record {
        same = elim (Result-cases (default_rrset settings m w.db)) [
          | inl (db, e) ↦
              rw (e, ◌>>=◌)
                (unfold written_data ttl_of contents_at in
                  rw (rrsets_at-default_rrset settings m w.db n x e apart))
          | inr (f, e) ↦ rw (e, ◌>>=◌)
        ];
      };
    }
    api_do-SameData (delete_domain m) apart = record { at = SameData-refl n x }
    api_do-SameData (update_rr_sets m a c d) apart = record { at = SameData-refl n x }

    perform-SameData : (c : Call) → Within (SameData n x) (perform accepts c)
    perform-SameData c = record {
      at = λ w. rw (perform-log settings accepts) (record { same = refl });
    }

    send_data-SameData :
        (name : String) (xs : List RRsetData)
        → Within (SameData n x) (send_data settings accepts name xs)
    unfolding send_data
    send_data-SameData name [] = Within-pure (SameData-refl n x) tt
    send_data-SameData name (y ∷ xs) = perform-SameData _

    pure-SameData : {A : Type 0} (a : A) → Within (SameData n x) (pure a)
    pure-SameData = Within-pure (SameData-refl n x)

    query-SameData : {A : Type 0} (f : Db → Result DbError A) → Within (SameData n x) (query f)
    query-SameData = Within-query (SameData-refl n x)

    bind-SameData :
        {A B : Type 0} (m : Action A) (f : A → Action B)
        → Within (SameData n x) m
        → ((a : A) → Within (SameData n x) (f a))
        → Within (SameData n x) (m >>= f)
    bind-SameData = Within-bind (SameData-trans n x)

    ruleset sparing = (
      pure-SameData, query-SameData, bind-SameData, Within-if, perform-SameData, send_data-SameData,
    )

    pdns_do-SameData : (c : Change) → Within (SameData n x) (pdns_do settings accepts c)
    unfolding pdns_do
    pdns_do-SameData (create_domain name) = search sparing
    pdns_do-SameData (delete_domain name) = search sparing
    pdns_do-SameData (update_rr_sets name a m d) = search sparing

    pch_do-SameData : (c : Change) → Within (SameData n x) (pch_do settings accepts c)
    unfolding pch_do
    pch_do-SameData (create_domain name) = search sparing
    pch_do-SameData _ = search sparing

    make_change-SameData :
        (c : Change)
        → makes_apex n x c ≡ false
        → Within (SameData n x) (make_change settings accepts c)
    unfolding make_change
    make_change-SameData c apart =
        let api = api_do-SameData c apart in
        bind-SameData _ _ (pdns_do-SameData c)
          (λ _. bind-SameData _ _ api (λ _. Within-if _ _ _ (pch_do-SameData c) (pure-SameData tt)))

  -- A change that ends well has delivered what it writes and what it clears.
  make_change-Delivered :
      (n : String) (x : Item) (c : Change) (w : World)
      → (make_change settings accepts c w).0 ≡ ok tt
      → (writes n x c ≡ true
          → (e : RRsetData) × (written_data n w.db x ≡ ok e)
            × Delivered n e (make_change settings accepts c w).1.log)
        × (clears n x c ≡ true
            → Delivered n (cleared_data n x) (make_change settings accepts c w).1.log)
  unfolding make_change
  make_change-Delivered n x (create_domain m) w h =
      (λ p. absurd (ground arith), λ p. absurd (ground arith))
  make_change-Delivered n x (delete_domain m) w h =
      (λ p. absurd (ground arith), λ p. absurd (ground arith))
  make_change-Delivered n x (update_rr_sets m a c d) w h =
      let ch = update_rr_sets m a c d in
      let (u, e, f, g) =
        >>=-returns (pdns_do settings accepts ch) (λ _. finish settings accepts ch) w h in
      let (sent, cleared) = pdns_do-Delivered m a c d w (e ∙ ap ok refl) in
      let grown = (finish-Grows settings accepts ch).at (pdns_do settings accepts ch w).1 in
      rw g (
        (λ p.
            let same : n ≡ m = (==_iff n m).0 (ground arith) in
            let (y, k, l) = sent x (In-member x _ (ground arith)) in
            (y, rw same k, rw same (Delivered-Grows m y _ _ grown l))),
        (λ p.
            let same : n ≡ m = (==_iff n m).0 (ground arith) in
            rw same (
              Delivered-Grows m (cleared_data m x) _ _ grown
                (cleared x (In-member x _ (ground arith))))),
      )

  -- If the loop ends, each RR set that a change writes has been sent, with the time to live and the
  -- records that the database holds; the apex NS set of a domain that a change creates is left out. Each
  -- RR set that a change clears has been sent with no records.
  pub make_changes-Delivered :
      (n : String) (x : Item) (cs : List Change) (names : List String) (w : World)
      {names' : List String}
      → (make_changes settings accepts cs names w).0 ≡ ok names'
      → (any (makes_apex n x) cs ≡ false
          → any (writes n x) cs ≡ true
          → (e : RRsetData) × (written_data n w.db x ≡ ok e)
            × Delivered n e (make_changes settings accepts cs names w).1.log)
        × (any (clears n x) cs ≡ true
            → Delivered n (cleared_data n x) (make_changes settings accepts cs names w).1.log)
  unfolding make_changes
  make_changes-Delivered n x [] names w h =
      (λ ne p. absurd (ground arith), λ p. absurd (ground arith))
  make_changes-Delivered n x (c ∷ cs) names w {names'} h =
      let next = if axfr_required c then add (domain_name c) names else names in
      let (u, e, f, g) =
        >>=-returns (make_change settings accepts c) (λ _. make_changes settings accepts cs next) w
          h in
      let v = (make_change settings accepts c w).1 in
      let (sent, cleared) = make_change-Delivered n x c w e in
      let (sent', cleared') = make_changes-Delivered n x cs next v f in
      let grown = (make_changes-Grows settings accepts cs next).at v in
      rw g (
        (λ ne p. elim (Bool-cases (writes n x c)) [
          | inl q ↦ (let (y, k, l) = sent q in (y, k, Delivered-Grows n y _ _ grown l))
          | inr q ↦
              (let spared = (make_change-SameData n x c (ground arith)).at w in
                let (y, k, l) = sent' (ground arith) (ground arith) in (y, sym spared.same ∙ k, l))
        ]),
        (λ p. elim (Bool-cases (clears n x c)) [
          | inl q ↦ Delivered-Grows n (cleared_data n x) _ _ grown (cleared q)
          | inr q ↦ cleared' (ground arith)
        ]),
      )
