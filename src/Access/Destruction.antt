-- ===== src/Access/Destruction.antt =====
-- views/domains.py `DomainViewSet.perform_destroy`, with its two trackers.
use desec_stack.Common.{
  ℕ, String, Bool, false, some, List, [], ◌∷◌, ◌++◌, map, if◌then◌else◌, ◌==◌, nat_eq, string_eq,
  pair_eq, option_eq, ok, err, keep,
}
use desec_stack.Db.{RRset}
use desec_stack.Tracker.{Signal, rr_deleted, rr_set_deleted, domain_deleted}
use desec_stack.Context.Data.{Call}
use desec_stack.Context.Effects.{World}
use desec_stack.Context.{Process}
use desec_stack.Delegation.{Child, is_locally_registrable, delete_domain}
use desec_stack.Access.Creation.{Site, Tracked, Body, track, delegate_body}

-- The signals of the rows that go with a domain: Django deletes the contents of all RR sets before the
-- RR sets, and these before the domain.
abbrev pub content_signals : List RRset → List Signal
content_signals [] = []
content_signals (r ∷ rows) =
    map (λ c. rr_deleted (some (r.domain, r.item))) r.records ++ content_signals rows

abbrev pub row_signals : List RRset → List Signal
row_signals rows = map (λ r. rr_set_deleted r.domain r.item) rows

-- `instance.delete()`
unfoldable pub delete_body : String → Body
unfolding delete_domain keep
delete_body name db =
    let rows = keep (λ (r : RRset). r.domain == name) db.rrsets in
    ok (delete_domain name db, content_signals rows ++ row_signals rows ++ domain_deleted name ∷ [])

-- The deleted domain has no primary key any more.
unfoldable pub perform_destroy :
    Site → (List Call → Call → Bool) → ℕ → Child → Process → World → Tracked
unfolding track delete_body delegate_body is_locally_registrable
perform_destroy site accepts now child p w =
    let first = track site accepts (delete_body child.name) now p w in
    let second =
      track site accepts (delegate_body site (record child { is_saved = false })) now first.process
        first.world in
    elim first.result [
      | err e ↦ first
      | ok _ ↦
          if is_locally_registrable site.local_public_suffixes child.name then second else first
    ]
