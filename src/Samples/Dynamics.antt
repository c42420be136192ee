-- ===== src/Samples/Dynamics.antt =====
-- A dynamic update of two names.
use desec_stack.Common.{
  String, ◌≡◌, refl, inl, inr, true, false, Option, none, some, List, [], ◌∷◌, nat_beq,
  if◌then◌else◌, ◌==◌, nat_eq, string_eq, pair_eq, option_eq, ok, keep, In, member, add, to_set,
  is_distinct, Dict, get, put, keys,
}
use desec_stack.Db.{Item}
use desec_stack.Dynamic.{
  Address, Network, replace_ip_subnet, set_ips, contains, relevant, single_action, several_action,
  select_action, get_action_from_param, find_action, extra_actions, put_all, subname_actions,
  get_records, records_data, DynRequest, update_data,
}
use desec_stack.Dynamic.Subnet.{IsMoved, replace_ip_subnet-IsMoved}
use desec_stack.Dynamic.Plain.{IsPlain, get_action_from_param-IsPlain}
use desec_stack.Dynamic.Said.{IsSaid, update_data-IsSaid}

abbrev home : Network
home = record { is_v6 = false; network_address = 192; host_bits = 4 }

abbrev sample_ip_network : String → Option Network
sample_ip_network param = if param == "0.0.0.192/28" then some home else none

abbrev sample_str_ip : Address → String
sample_str_ip a = if nat_beq a.value 197 then "0.0.0.197" else "another"

abbrev old_address : Address
old_address = record { is_v6 = false; value = 21 }

abbrev sample_records : String → List Address
sample_records subname = old_address ∷ []

abbrev dyn_request : DynRequest
dyn_request = record {
  query_params = ("myipv4", "0.0.0.192/28" ∷ []) ∷ ("myipv6", "preserve" ∷ []) ∷ [];
  extra_params = (("A", "b"), "1.1.1.1" ∷ "2.2.2.2" ∷ []) ∷ [];
  client_ip = "9.9.9.9";
  subnames = "a" ∷ "b" ∷ [];
}

abbrev dyn_data : Dict Item (List String)
dyn_data = (("A", "a"), "0.0.0.197" ∷ []) ∷ (("A", "b"), "1.1.1.1" ∷ "2.2.2.2" ∷ []) ∷ []

dyn_run : update_data sample_ip_network sample_str_ip dyn_request sample_records ≡ ok dyn_data
unfolding update_data find_action extra_actions put_all subname_actions records_data get put
    get_action_from_param relevant select_action single_action several_action contains keep to_set
    add member get_records replace_ip_subnet
dyn_run = refl

dyn_once : is_distinct (keys dyn_request.extra_params) ≡ true
unfolding is_distinct keys member
dyn_once = refl

update_data-IsSaid_example :
    IsSaid sample_ip_network sample_str_ip dyn_request sample_records
      ("A", "a")
      (get ("A", "a") dyn_data)
update_data-IsSaid_example =
    update_data-IsSaid sample_ip_network sample_str_ip dyn_request sample_records dyn_data dyn_once
      dyn_run ("A", "a")

replace_ip_subnet-IsMoved_example :
    ((b : Address)
      → In b (replace_ip_subnet (old_address ∷ []) home)
      → (a : Address) × In a (old_address ∷ []) × IsMoved home a b)
    × ((a : Address)
        → In a (old_address ∷ [])
        → a.is_v6 ≡ home.is_v6
        → (b : Address) × In b (replace_ip_subnet (old_address ∷ []) home) × IsMoved home a b)
replace_ip_subnet-IsMoved_example = replace_ip_subnet-IsMoved (old_address ∷ []) home refl

two_addresses :
    get_action_from_param sample_ip_network "." ("1.1.1.1" ∷ "::1" ∷ "2.2.2.2" ∷ [])
    ≡ ok (some (set_ips ("1.1.1.1" ∷ "2.2.2.2" ∷ [])))
unfolding get_action_from_param relevant select_action several_action contains keep to_set add
    member
two_addresses = refl

get_action_from_param-IsPlain_example : IsPlain "." ("1.1.1.1" ∷ "::1" ∷ "2.2.2.2" ∷ []) "2.2.2.2"
get_action_from_param-IsPlain_example =
    get_action_from_param-IsPlain sample_ip_network "." ("1.1.1.1" ∷ "::1" ∷ "2.2.2.2" ∷ [])
      ("1.1.1.1" ∷ "2.2.2.2" ∷ []) two_addresses "2.2.2.2" (inr (inl refl))
