-- ===== src/Tracker/History.antt =====
-- The tracker against the database: a history of signals that a database can give rise to raises
-- nothing, and the sets say which RR sets have come, changed and gone since the tracker was entered.
use desec_stack.Common.{String, Bool, nat_eq, string_eq, pair_eq, member}
use desec_stack.Db.{Item}
use desec_stack.Tracker.{Tracker}
use desec_stack.Tracker.View.{items_of, IsAligned}
use desec_stack.Tracker.Agrees.{Rows, Agrees}

-- The tracker agrees with the database on every RR set.
pub record Agreement (before : Rows) (concerned made : String → Item → Bool) (p : Rows)
    (t : Tracker) : Type 0 where
  pub aligned : IsAligned t
  pub at :
      (n : String) (x : Item)
      → Agrees (items_of n t) x (member (n, x) before) (member (n, x) p) (concerned n x) (made n x)
