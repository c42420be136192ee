-- ===== src/Lib.antt =====
-- desec-stack's API (api/desecapi): a development about the code that decides what is in the DNS and
-- who may change it.
--
-- Requests change rows of the database. Django sends a signal for each row that is written or deleted,
-- and a `PDNSChangeTracker` that is active in the request collects them. When its `with` block ends it
-- computes the changes of the name servers, makes them one after another by calls of the PowerDNS API,
-- commits the transaction and asks the secondaries to transfer the zones. Before that, a token's
-- scoping policies have said whether the request may write the RR set at all.
--
-- A bulk request is a list that is validated as a whole (Validation) before it is saved (Bulk); the
-- data of a dynamic update (Dynamic) go the same way. Domains are registered under names that no zone
-- of another user meets (Naming), and delegated when they are below a local public suffix
-- (Delegation). Before a request does any of this it has been authenticated and permitted (Access).
-- What a user confirms by mail is a code (Code) for an action that changes the user's row or a domain
-- (Action, Account).
--
-- Files and code, with paths below api/desecapi:
--   Common     Python's tests, exceptions, lists, sets and dictionaries. A set is a list that is read
--              through `member` alone; a dictionary is an association list with one entry for each key.
--   Db         models/domains.py `Domain`, models/records.py `RRset` with the contents of its `RR`s,
--              their constraints, and the queries that the tracker makes
--   Tracker    pdns_change_tracker.py, the signal handlers: `_rr_set_updated` is `rr_set_updated`, with
--              the `match` in `classify`; `_domain_updated` is `domain_updated`; the `_on_...` handlers
--              are the constructors of `Signal` and `receive`; `receive_all` is the body of a `with` block
--   Changes    the same file, `_compute_changes`, as `compute_changes`
--   Context    the same file, `__enter__` (`enter`), `__exit__` (`exit`) and the three kinds of change
--              with their `pdns_do`, `api_do` and `pch_do`
--   Token      models/tokens.py `Token` and `TokenDomainPolicy`, and permissions.py
--              `TokenHasRRsetPermission`
--   Records    models/records.py `RRset.clean_records` and `save_records`, with the signals of the rows
--              that are deleted and added. `RR.canonical_presentation_format` is a parameter.
--   Bulk       serializers/records.py `RRsetListSerializer.update` (`update_all`): the sets of keys
--              (`parts`), the three loops (`each` of `delete_at`, `create_at` and `update_at`), and
--              `create` and `update` of `RRsetSerializer`. An instance stands for its row; the field
--              `touched` is left out. Bulk/Single has the `save` of one RR set.
--   Factor     models/mfa.py `TOTPFactor.verify`, and saving and deleting a `BaseFactor`. The time step
--              of a time, the code of a step and the comparison of codes are pyotp's and parameters.
--              Factor/Stepping has views/mfa.py `TOTPViewSet.verify`.
--   Throttle   throttling.py `ScopedRatesThrottle.allow_request` and `throttle_success`, for one key of
--              the cache, with the rates as `parse_rate` returns them
--   Renewal    management/commands/scavenge-unused.py `handle` and its phases, for one domain, over a
--              parameter `date` for the local date of a time
--   Validation serializers/records.py `RRsetListSerializer.to_internal_value`, for a list, by its three
--              loops (`index_elements`, `collapse` and `check_elements`). `run_validation`, which the
--              REST framework does for one element, is a parameter; it takes white space off the keys.
--   Action     models/authenticated_actions.py: the fields that a code's state is made of
--              (`state_fields`), `instantiate` for `__init__`, `act`, and `post` for what the views do
--              with a code that the serializer has unpacked. sha256 and json are a parameter.
--   Dynamic    views/dyndns.py from the query parameters to the data for the serializer (`update_data`
--              for `get`), and models/records.py `replace_ip_subnet`. The texts that the parameters
--              are split into are the input; `ip_network` and the text of an address are parameters.
--   Naming     models/domains.py `Domain.public_suffix` and `Domain.is_registrable` with what it calls.
--              A name is the list of its labels. The public suffix list is a parameter.
--   Account    models/users.py `User` with the operations that actions call, and the tables
--   Code       serializers/authenticated_actions.py `_pack_code` and `_unpack_code`; the encryption of
--              crypto.py, which calls a library, is a parameter.
--   Element    serializers/records.py `RRsetSerializer` from the fields to `validate` (`run_validation`),
--              and validators.py. Element/Reading puts it behind the list serializer of Validation.
--   Delegation models/domains.py `Domain.update_delegation` and `delete`, and views/domains.py
--              `auto_delegate`
--   Access     authentication.py, the three ways of authentication by a token, permissions.py
--              (Permissions), and the permission classes of the views (Views). What the REST framework
--              and Django do for it is the record `Library`. Creation has views/domains.py
--              `perform_create`, and Destruction `perform_destroy`, by the models of the tracker, the
--              token and the delegation.
--   Samples    tests, and the theorems at inputs where their hypotheses hold
--
-- A function that raises returns `err`; where it has changed an object before it raises, the changed
-- object stands beside the result. The two assertions of the tracker, its KeyErrors and the errors of
-- the database are such values. The tracker's sets are shared between its dictionaries and the code
-- that changes them, so a change of a set is written back (`store`).
--
-- The services behind pdns.py and pch.py are one parameter, `accepts`, which says for each call,
-- given the calls before it, whether it raises. The calls themselves are kept in a log. Settings that
-- the changes read are the record `Settings`. Nothing here runs on fuel: every loop of the modelled
-- code is over a list, a set or a dictionary and is structural recursion.
--
-- Not modelled: the parsing of record contents and the import of zone files, which are dnspython's;
-- the HTTP layer and the rendering of the REST framework; users' passwords, captchas, mail, metrics and
-- Celery; the web front end (www), the name servers' and the database's configuration, and the tests.
pub mod Common
pub mod Db
pub mod Tracker
pub mod Changes
pub mod Context
pub mod Token
pub mod Records
pub mod Bulk
pub mod Validation
pub mod Element
pub mod Factor
pub mod Throttle
pub mod Renewal
pub mod Account
pub mod Action
pub mod Dynamic
pub mod Naming
pub mod Access
pub mod Delegation
pub mod Code
mod Samples
