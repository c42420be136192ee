-- ===== src/Context/Effects.antt =====
-- Calls of the services behind pdns.py and pch.py, and reads and writes of the database, in sequence
-- and with exceptions. A call is recorded in a log; a parameter says whether the service accepts it.
use desec_stack.Common.{
  ◌≡◌, refl, Bool, true, false, List, [], ◌∷◌, ◌++◌, arith, if◌then◌else◌, nat_eq, string_eq,
  pair_eq, Result, ok, err,
}
use desec_stack.Db.{Db, DbError}
use desec_stack.Context.Data.{Call}

-- What a change can raise.
pub data Failure : Type 0 where
  database : DbError → Failure
  refused : Call → Failure

-- the calls made so far, oldest first, and the database as the open transaction sees it
pub record World : Type 0 where
  pub log : List Call
  pub db : Db

abbrev pub Action : Type 0 → Type 0
Action A = World → Result Failure A × World

abbrev pub proceed :
    {A B : Type 0} → Result Failure A → World → (A → Action B) → Result Failure B × World
proceed (ok a) w f = f a w
proceed (err e) w f = (err e, w)

infixl 5 ◌>>=◌ ◌>>◌
unfoldable pub ◌>>=◌ : {A B : Type 0} → Action A → (A → Action B) → Action B
◌>>=◌ m f w = proceed (m w).0 (m w).1 f

abbrev pub ◌>>◌ : {B : Type 0} → Action (Unit {0}) → Action B → Action B
m >> k = m >>= λ _. k

unfoldable pub pure : {A : Type 0} → A → Action A
pure a w = (ok a, w)

abbrev from_db : {A : Type 0} → Result DbError A → Result Failure A
from_db (ok a) = ok a
from_db (err e) = err (database e)

-- a query
unfoldable pub query : {A : Type 0} → (Db → Result DbError A) → Action A
query f w = (from_db (f w.db), w)

-- a write, of the database that a query has computed
unfoldable pub write_db : Db → Action (Unit {0})
write_db db w = (ok tt, record w { db = db })

-- A call is made, and raises if the service refuses it.
unfoldable pub perform : (List Call → Call → Bool) → Call → Action (Unit {0})
perform accepts c w =
    let w' = record w { log = w.log ++ c ∷ [] } in
    if accepts w.log c then (ok tt, w') else (err (refused c), w')

-- Every run of an action relates the worlds before and behind it.
pub record Within (R : World → World → Type 0) {A : Type 0} (m : Action A) : Type 0 where
  pub at : (w : World) → R w (m w).1

module _ {R : World → World → Type 0} (R-refl : (w : World) → R w w) where
  pub Within-pure : {A : Type 0} (a : A) → Within R (pure a)
  unfolding pure
  Within-pure a = record { at = R-refl }

  pub Within-query : {A : Type 0} (f : Db → Result DbError A) → Within R (query f)
  unfolding query
  Within-query f = record { at = R-refl }

module _ {R : World → World → Type 0} (R-trans : (u v w : World) → R u v → R v w → R u w) where
  proceed-Within :
      {A B : Type 0} (u : World) (r : Result Failure A) (w : World) (f : A → Action B)
      → R u w
      → ((a : A) → Within R (f a))
      → R u (proceed r w f).1
  proceed-Within u (ok a) w f g h = R-trans u w (f a w).1 g ((h a).at w)
  proceed-Within u (err e) w f g h = g

  pub Within-bind :
      {A B : Type 0} (m : Action A) (f : A → Action B)
      → Within R m
      → ((a : A) → Within R (f a))
      → Within R (m >>= f)
  unfolding ◌>>=◌
  Within-bind m f g h = record { at = λ w. proceed-Within w (m w).0 (m w).1 f (g.at w) h }

pub Within-if :
    {R : World → World → Type 0} {A : Type 0} (b : Bool) (m k : Action A)
    → Within R m
    → Within R k
    → Within R (if b then m else k)
Within-if true m k g h = g
Within-if false m k g h = h

proceed-returns :
    {A B : Type 0} (r : Result Failure A) (w : World) (f : A → Action B) {b : B}
    → (proceed r w f).0 ≡ ok b
    → (a : A) × (r ≡ ok a) × ((f a w).0 ≡ ok b) × ((proceed r w f).1 ≡ (f a w).1)
proceed-returns (ok a) w f h = (a, refl, h, refl)
proceed-returns (err e) w f h = absurd (ground arith)

-- A sequence returns a value only if each part does.
pub >>=-returns :
    {A B : Type 0} (m : Action A) (f : A → Action B) (w : World) {b : B}
    → ((m >>= f) w).0 ≡ ok b
    → (a : A) × ((m w).0 ≡ ok a) × ((f a (m w).1).0 ≡ ok b) × (((m >>= f) w).1 ≡ (f a (m w).1).1)
unfolding ◌>>=◌
>>=-returns m f w h = proceed-returns (m w).0 (m w).1 f h
