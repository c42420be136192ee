-- ===== src/Dynamic/Given.antt =====
-- views/dyndns.py: what a request asks for an RR set, and what it then holds.
use desec_stack.Common.{
  ◌+◌, ◌%◌, ◌^◌, String, ◌≡◌, ◌≢◌, refl, sym, ap, ◌∙◌, inl, inr, Bool, true, false, Option, none,
  some, List, [], ◌∷◌, map, arith, if◌then◌else◌, Bool-cases, Option-cases, differ, ◌==◌, ==_iff,
  nat_eq, string_eq, pair_eq, option_eq, ok, >>=-eq-ok, ok_same, Result-cases, keep, Dict, get,
}
use mathlib.Core.Path.{subst}
use desec_stack.Db.{Item}
use desec_stack.Dynamic.{
  Address, Network, replace_prefix, replace_ip_subnet, UpdateAction, set_ips, update_with_subnet,
  preserve_ips, contains, get_action_from_param, find_action, extra_actions, get_records,
  separator_of,
}

-- The addresses with the prefix of the subnet, without those of the other version.
pub data IsRenumbered (n : Network) : List Address → List Address → Type 0 where
  renumbered : IsRenumbered n [] []
  moved :
      (a : Address) (addresses moves : List Address)
      → a.is_v6 ≡ n.is_v6
      → IsRenumbered n addresses moves
      → IsRenumbered n (a ∷ addresses) (
          record { is_v6 = n.is_v6; value = n.network_address + a.value % 2 ^ n.host_bits } ∷ moves)
  left_out :
      (a : Address) (addresses moves : List Address)
      → a.is_v6 ≢ n.is_v6
      → IsRenumbered n addresses moves
      → IsRenumbered n (a ∷ addresses) moves

-- What an action makes of an RR set with these addresses: `none` leaves it addresses it is.
pub data Gives (str_ip : Address → String) (present : List Address)
    : Option UpdateAction → Option (List String) → Type 0 where
  silent : Gives str_ip present none none
  preserved : Gives str_ip present (some preserve_ips) none
  replaced : (ips : List String) → Gives str_ip present (some (set_ips ips)) (some ips)
  renumbered_to :
      (n : Network) (addresses : List Address)
      → IsRenumbered n present addresses
      → Gives str_ip present (some (update_with_subnet n)) (some (map str_ip addresses))

-- The action that the first of the parameters selects, or else the address of the client.
pub data IsFound (ip_network : String → Option Network) (separator client_ip : String)
    (query : Dict String (List String)) : List String → UpdateAction → Type 0 where
  selected :
      (key : String) (later parts : List String) (action : UpdateAction)
      → get key query ≡ some parts
      → get_action_from_param ip_network separator parts ≡ ok (some action)
      → IsFound ip_network separator client_ip query (key ∷ later) action
  unsent :
      (key : String) (later : List String) (action : UpdateAction)
      → get key query ≡ none
      → IsFound ip_network separator client_ip query later action
      → IsFound ip_network separator client_ip query (key ∷ later) action
  unrelated :
      (key : String) (later parts : List String) (action : UpdateAction)
      → get key query ≡ some parts
      → get_action_from_param ip_network separator parts ≡ ok none
      → IsFound ip_network separator client_ip query later action
      → IsFound ip_network separator client_ip query (key ∷ later) action
  own_address :
      contains separator client_ip ≡ true
      → IsFound ip_network separator client_ip query [] (set_ips (client_ip ∷ []))
  no_address :
      contains separator client_ip ≡ false
      → IsFound ip_network separator client_ip query [] (set_ips [])

replace_ip_subnet-IsRenumbered :
    (n : Network) (present : List Address) → IsRenumbered n present (replace_ip_subnet present n)
unfolding replace_ip_subnet keep
replace_ip_subnet-IsRenumbered n [] = renumbered
replace_ip_subnet-IsRenumbered n (a ∷ addresses) =
    let rest = replace_ip_subnet-IsRenumbered n addresses in
    let goal = IsRenumbered n (a ∷ addresses) in
    elim (Bool-cases (differ n.is_v6 a.is_v6)) [
      | inl e ↦
          (let there : replace_ip_subnet addresses n ≡ replace_ip_subnet (a ∷ addresses) n =
              ground arith in
            subst goal there (left_out a addresses _ (λ same. absurd (ground arith)) rest))
      | inr e ↦
          (let there : (replace_prefix n a ∷ replace_ip_subnet addresses n)
                ≡ replace_ip_subnet (a ∷ addresses) n =
              ground arith in
            subst goal there (moved a addresses _ (ground arith) rest))
    ]

pub get_records-Gives :
    (str_ip : Address → String) (present : List Address) (action : Option UpdateAction)
    → Gives str_ip present action (get_records str_ip present action)
unfolding get_records
get_records-Gives str_ip present none = silent
get_records-Gives str_ip present (some (set_ips ips)) = replaced ips
get_records-Gives str_ip present (some (update_with_subnet n)) =
    renumbered_to n (replace_ip_subnet present n) (replace_ip_subnet-IsRenumbered n present)
get_records-Gives str_ip present (some preserve_ips) = preserved

module _ (ip_network : String → Option Network) where
  remote_action-IsFound :
      (separator client_ip : String) (query : Dict String (List String)) (is_own : Bool)
      → contains separator client_ip ≡ is_own
      → IsFound ip_network separator client_ip query []
          (if is_own then set_ips (client_ip ∷ []) else set_ips [])
  remote_action-IsFound separator client_ip query true e = own_address e
  remote_action-IsFound separator client_ip query false e = no_address e

  pub find_action-IsFound :
      (separator client_ip : String) (query : Dict String (List String)) (param_keys : List String)
      {action : UpdateAction}
      → find_action ip_network separator client_ip query param_keys ≡ ok action
      → IsFound ip_network separator client_ip query param_keys action
  unfolding find_action
  find_action-IsFound separator client_ip query [] h =
      subst (IsFound ip_network separator client_ip query []) (ok_same h)
        (remote_action-IsFound separator client_ip query (contains separator client_ip) refl)
  find_action-IsFound separator client_ip query (key ∷ later) {action} h =
      let next : find_action ip_network separator client_ip query later ≡ ok action
          → IsFound ip_network separator client_ip query later action =
        find_action-IsFound separator client_ip query later in
      elim (Option-cases (get key query)) [
        | inl e ↦ unsent key later action e (next (ground arith))
        | inr (parts, e) ↦ elim (Result-cases (get_action_from_param ip_network separator parts)) [
          | inr (problem, f) ↦ absurd (ground arith)
          | inl (none, f) ↦ unrelated key later parts action e f (next (ground arith))
          | inl (some a, f) ↦
              (let same : a ≡ action = ground arith in
                selected key later parts action e (f ∙ ap (λ x. ok (some x)) same))
        ]
      ]

  -- An extra parameter has the action of its parts.
  pub get-extra_actions :
      (k : Item) (params : List (Item × List String)) {extra : List (Item × Option UpdateAction)}
      (parts : List String)
      → extra_actions ip_network params ≡ ok extra
      → get k params ≡ some parts
      → (action : Option UpdateAction) × (get_action_from_param ip_network
            (if k.0 == "A" then "." else ":")
            parts
          ≡ ok action)
        × (get k extra ≡ some action)
  unfolding extra_actions get
  get-extra_actions k [] parts h e = absurd (ground arith)
  get-extra_actions k ((item, own) ∷ params) parts h e =
      let (action, f, h1) =
        >>=-eq-ok (get_action_from_param ip_network (separator_of item.0) own) _ h in
      let (others, g, h2) = >>=-eq-ok (extra_actions ip_network params) _ h1 in
      let found = ok_same h2 in
      let rest = get-extra_actions k params parts g in
      let same = ==_iff k item in
      elim (Bool-cases (k == item)) [
        | inl b ↦
            (let equal = same.0 b in
              let mine : own ≡ parts = ground arith in
              (
                action,
                ap (λ (i : Item). get_action_from_param ip_network (separator_of i.0) parts) equal
                    ∙ ap (get_action_from_param ip_network (separator_of item.0)) (sym mine)
                    ∙ f,
                ap (get k) (sym found) ∙ ground arith,
              ))
        | inr b ↦
            (let (a, i, j) = rest (ground arith) in (a, i, ap (get k) (sym found) ∙ ground arith))
      ]

  pub get-extra_actions-none :
      (k : Item) (params : List (Item × List String)) {extra : List (Item × Option UpdateAction)}
      → extra_actions ip_network params ≡ ok extra
      → get k params ≡ none
      → get k extra ≡ none
  unfolding extra_actions get
  get-extra_actions-none k [] h e = ap (get k) (sym (ok_same h))
  get-extra_actions-none k ((item, own) ∷ params) h e =
      let (action, f, h1) =
        >>=-eq-ok (get_action_from_param ip_network (separator_of item.0) own) _ h in
      let (others, g, h2) = >>=-eq-ok (extra_actions ip_network params) _ h1 in
      let rest = get-extra_actions-none k params g in ap (get k) (sym (ok_same h2)) ∙ ground arith
