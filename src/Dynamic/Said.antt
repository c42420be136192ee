-- ===== src/Dynamic/Said.antt =====
-- views/dyndns.py: the data for the bulk update, by what the request asks for each RR set.
use desec_stack.Common.{
  String, ◌≡◌, sym, ap, ◌∙◌, inl, inr, true, ◌&&◌, Option, none, some, List, [], ◌∷◌, arith,
  if◌then◌else◌, ◌==◌, ==_iff, nat_eq, string_eq, pair_eq, option_eq, ok, >>=-eq-ok, ok_same, In,
  member, is_distinct, Dict, get, keys, ◌⊎◌, Bool-cases, Option-cases, member-In, In-member,
}
use desec_stack.Dynamic.Given.{
  Gives, IsFound, get_records-Gives, find_action-IsFound, get-extra_actions, get-extra_actions-none,
}
use mathlib.Core.Path.{subst}
use desec_stack.Db.{Item}
use desec_stack.Dynamic.Data.{is_address_type, expected, keys-extra_actions, get-expected}
use desec_stack.Dynamic.{
  Address, Network, UpdateAction, get_action_from_param, find_action, extra_actions, DynRequest,
  ipv4_keys, ipv6_keys, update_data,
}

-- What the data say of an RR set. The action is that of its own extra parameter, or else, for an A or
-- AAAA RR set of a name of the request, the one found for its type; of others they say nothing.
pub data IsSaid (ip_network : String → Option Network) (str_ip : Address → String) (r : DynRequest)
    (subname_records : String → List Address) (k : Item) (entry : Option (List String))
    : Type 0 where
  by_own_parameter :
      (parts : List String) (action : Option UpdateAction)
      → get k r.extra_params ≡ some parts
      → get_action_from_param ip_network (if k.0 == "A" then "." else ":") parts ≡ ok action
      → Gives str_ip (subname_records k.1) action entry
      → IsSaid ip_network str_ip r subname_records k entry
  by_type_a :
      (action : UpdateAction)
      → get k r.extra_params ≡ none
      → k.0 ≡ "A"
      → In k.1 r.subnames
      → IsFound ip_network "." r.client_ip r.query_params ("myip" ∷ "myipv4" ∷ "ip" ∷ []) action
      → Gives str_ip (subname_records k.1) (some action) entry
      → IsSaid ip_network str_ip r subname_records k entry
  by_type_aaaa :
      (action : UpdateAction)
      → get k r.extra_params ≡ none
      → k.0 ≡ "AAAA"
      → In k.1 r.subnames
      → IsFound ip_network ":" r.client_ip r.query_params
          ("myipv6" ∷ "ipv6" ∷ "myip" ∷ "ip" ∷ [])
          action
      → Gives str_ip (subname_records k.1) (some action) entry
      → IsSaid ip_network str_ip r subname_records k entry
  unsaid :
      get k r.extra_params ≡ none
      → ((k.0 ≡ "A") ⊎ (k.0 ≡ "AAAA") → In k.1 r.subnames → ⊥)
      → entry ≡ none
      → IsSaid ip_network str_ip r subname_records k entry

module _ (ip_network : String → Option Network) (str_ip : Address → String) where
  expected-IsSaid :
      (r : DynRequest) (subname_records : String → List Address) (a aaaa : UpdateAction)
      {extra : List (Item × Option UpdateAction)}
      → extra_actions ip_network r.extra_params ≡ ok extra
      → find_action ip_network "." r.client_ip r.query_params ipv4_keys ≡ ok a
      → find_action ip_network ":" r.client_ip r.query_params ipv6_keys ≡ ok aaaa
      → (k : Item)
      → IsSaid ip_network str_ip r subname_records k
          (expected str_ip subname_records extra r.subnames a aaaa k)
  expected-IsSaid r subname_records a aaaa {extra} f fa faaaa k =
      let goal = IsSaid ip_network str_ip r subname_records k in
      let gives = get_records-Gives str_ip (subname_records k.1) in
      let target = expected str_ip subname_records extra r.subnames a aaaa k in
      elim (Option-cases (get k r.extra_params)) [
        | inr (parts, e) ↦
            (let (action, g, i) = get-extra_actions ip_network k r.extra_params parts f e in
              subst goal (ground arith) (by_own_parameter parts action e g (gives action)))
        | inl e ↦
            (let i = get-extra_actions-none ip_network k r.extra_params f e in
              elim (Bool-cases (is_address_type k.0 && member k.1 r.subnames)) [
                | inr j ↦
                    unsaid e
                      (λ t m.
                        let here = member-In k.1 r.subnames m in
                        let is_a = ==_iff k.0 "A" in
                        let is_aaaa = ==_iff k.0 "AAAA" in ground arith)
                      (ground arith)
                | inl j ↦ elim (Bool-cases (k.0 == "A")) [
                  | inl t ↦ subst goal (ground arith) (
                      by_type_a a e ((==_iff k.0 "A").0 t) (In-member k.1 r.subnames (ground arith))
                        (find_action-IsFound ip_network "." r.client_ip r.query_params ipv4_keys fa)
                        (gives (some a)))
                  | inr t ↦ subst goal (ground arith) (
                      by_type_aaaa aaaa e ((==_iff k.0 "AAAA").0 (ground arith))
                        (In-member k.1 r.subnames (ground arith))
                        (find_action-IsFound ip_network ":" r.client_ip r.query_params ipv6_keys
                          faaaa)
                        (gives (some aaaa)))
                ]
              ])
      ]

  -- If `get` raises nothing on a request whose extra parameters name each RR set once, its data say of
  -- each RR set what its own extra parameter asks, or else, for an A or AAAA RR set of a name of the
  -- request, what the first parameter of its type that concerns it, or else the client's address, asks:
  -- the addresses given, the present ones of that version renumbered into the subnet given, or nothing
  -- where it is preserved. They say nothing of any other RR set. What a parameter by itself asks is as
  -- `get_action_from_param` reads it.
  pub update_data-IsSaid :
      (r : DynRequest) (subname_records : String → List Address) (d : Dict Item (List String))
      → is_distinct (keys r.extra_params) ≡ true
      → update_data ip_network str_ip r subname_records ≡ ok d
      → (k : Item) → IsSaid ip_network str_ip r subname_records k (get k d)
  unfolding update_data
  update_data-IsSaid r subname_records d distinct h k =
      let (extra, f, h1) = >>=-eq-ok (extra_actions ip_network r.extra_params) _ h in
      let (a, fa, h2) =
        >>=-eq-ok (find_action ip_network "." r.client_ip r.query_params ipv4_keys) _ h1 in
      let (aaaa, faaaa, h3) =
        >>=-eq-ok (find_action ip_network ":" r.client_ip r.query_params ipv6_keys) _ h2 in
      let once = ap is_distinct (keys-extra_actions ip_network r.extra_params f) ∙ distinct in
      let data_of =
        ap (get k) (sym (ok_same h3))
        ∙ get-expected str_ip subname_records extra r.subnames a aaaa k once in
      subst (IsSaid ip_network str_ip r subname_records k) (sym data_of)
        (expected-IsSaid r subname_records a aaaa f fa faaaa k)
