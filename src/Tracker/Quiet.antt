-- ===== src/Tracker/Quiet.antt =====
-- pdns_change_tracker.py, the signal handlers: only a domain that is made comes to be added.
use desec_stack.Common.{
  String, ◌≡◌, inl, inr, Bool, true, false, none, some, List, [], ◌∷◌, arith, nat_eq, string_eq,
  pair_eq, option_eq, succeeds, Result-cases, all, member, member-discard,
}
use desec_stack.Tracker.{
  Signal, rr_saved, rr_deleted, rr_set_saved, rr_set_deleted, domain_saved, domain_deleted, Tracker,
  domain_updated, receive, receive_all,
}
use desec_stack.Tracker.View.{rr_set_updated-domains}
use desec_stack.Tracker.Invariant.{IsValid, receive-IsValid}

abbrev pub is_quiet : Signal → Bool
is_quiet (domain_saved name created) = false
is_quiet _ = true

receive-domain_additions :
    (x : Signal) (t : Tracker) (m : String)
    → is_quiet x ≡ true
    → IsValid t
    → member m t.domain_additions ≡ false
    → member m (receive x t).1.domain_additions ≡ false
unfolding receive
receive-domain_additions (rr_saved n i) t m q v h =
    rw ((rr_set_updated-domains n i false false t v.aligned).0) h
receive-domain_additions (rr_deleted none) t m q v h = h
receive-domain_additions (rr_deleted (some (n, i))) t m q v h =
    rw ((rr_set_updated-domains n i false false t v.aligned).0) h
receive-domain_additions (rr_set_saved n i c) t m q v h =
    rw ((rr_set_updated-domains n i c false t v.aligned).0) h
receive-domain_additions (rr_set_deleted n i) t m q v h =
    rw ((rr_set_updated-domains n i false true t v.aligned).0) h
receive-domain_additions (domain_saved n c) t m q v h = absurd (ground arith)
receive-domain_additions (domain_deleted n) t m q v h =
    unfold domain_updated in ground (arith, member-discard m n t.domain_additions)

-- Signals of RR sets and of deletions add no domain.
pub receive_all-domain_additions :
    (xs : List Signal) (t : Tracker) (m : String)
    → all is_quiet xs ≡ true
    → IsValid t
    → succeeds (receive_all xs t).0 ≡ true
    → member m t.domain_additions ≡ false
    → member m (receive_all xs t).1.domain_additions ≡ false
unfolding receive_all
receive_all-domain_additions [] t m q v s h = h
receive_all-domain_additions (x ∷ xs) t m q v s h = elim (Result-cases (receive x t).0) [
  | inl (a, e) ↦
      (let first = receive-domain_additions x t m (ground arith) v h in
        rw (e, receive_all)
          (receive_all-domain_additions xs (receive x t).1 m (ground arith)
            (receive-IsValid x t (rw e) v) (rw (e, receive_all) at s) first))
  | inr (f, e) ↦ absurd (ground arith)
]
