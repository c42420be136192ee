-- ===== src/Dynamic.antt =====
-- views/dyndns.py: the action that the query parameters select for each address type and name, and
-- the data for the bulk update; models/records.py `replace_ip_subnet`. The value of a parameter is
-- the list of the texts that `split(",")` and `strip` make of it. `ip_network` is the parser of
-- Python's ipaddress, where none is its ValueError, and `str_ip` the text of an address.
pub mod Subnet
pub mod Plain
pub mod Given
pub mod Data
pub mod Said
use desec_stack.Common.{
  ℕ, ◌+◌, ◌/◌, ◌%◌, ◌^◌, String, Bool, true, false, not, ◌||◌, Option, none, some, List, [], ◌∷◌,
  map, arith, if◌then◌else◌, differ, Eq, ◌==◌, nat_eq, string_eq, pair_eq, option_eq, Result, ok,
  err, ◌>>=◌, ◌>>◌, keep, any, to_set, Dict, get, put,
}
use desec_stack.Db.{Item}
use text.Mathlib.Text.{find?}

-- An address and a network of the ipaddress module: the version and the numbers. The host mask has
-- the given number of low bits set.
pub record Address : Type 0 where
  pub is_v6 : Bool
  pub value : ℕ

pub record Network : Type 0 where
  pub is_v6 : Bool
  pub network_address : ℕ
  pub host_bits : ℕ

-- `replace_ip_subnet`: a record whose content is an address of the version of the subnet gets the
-- subnet's prefix; `&` with the host mask is the remainder by the size of the subnet.
abbrev pub replace_prefix : Network → Address → Address
replace_prefix subnet a = record {
  is_v6 = subnet.is_v6;
  value = subnet.network_address + a.value % 2 ^ subnet.host_bits;
}

unfoldable pub replace_ip_subnet : List Address → Network → List Address
unfolding keep
replace_ip_subnet records subnet =
    map (replace_prefix subnet) (keep (λ a. not (differ subnet.is_v6 a.is_v6)) records)

pub data UpdateAction : Type 0 where
  set_ips : List String → UpdateAction
  update_with_subnet : Network → UpdateAction
  preserve_ips : UpdateAction

pub data ParameterError : Type 0 where
  inconsistent_parameter : ParameterError
  multiple_subnet : ParameterError
  invalid_subnet : ParameterError

-- `part in text`
unfoldable pub contains : String → String → Bool
contains part text = elim (find? text part) [ none ↦ false | some _ ↦ true ]

abbrev pub is_keyword : String → Bool
is_keyword param = param == "" || param == "preserve"

-- the parts that concern the address type of the separator, as a set
unfoldable pub relevant : String → List String → List String
unfolding contains keep to_set
relevant separator parts =
    to_set (keep (λ param. contains separator param || is_keyword param) parts)

abbrev pub remote_action : String → String → UpdateAction
remote_action separator client_ip =
    if contains separator client_ip then set_ips (client_ip ∷ []) else set_ips []

abbrev pub separator_of : String → String
separator_of type = if type == "A" then "." else ":"

module _ (ip_network : String → Option Network) where
  abbrev pub subnet_action : String → Result ParameterError (Option UpdateAction)
  subnet_action param = elim (ip_network param) [
    | none ↦ err invalid_subnet
    | some subnet ↦ ok (some (update_with_subnet subnet))
  ]

  -- the `match` on a single part
  unfoldable pub single_action : String → Result ParameterError (Option UpdateAction)
  unfolding contains
  single_action param =
      if param == ""
      then ok (some (set_ips []))
      else if param == "preserve"
      then ok (some preserve_ips)
      else if contains "/" param
      then subnet_action param
      else ok (some (set_ips (param ∷ [])))

  -- several parts
  unfoldable pub several_action : List String → Result ParameterError (Option UpdateAction)
  unfolding contains
  several_action params =
      if any is_keyword params
      then err inconsistent_parameter
      else if any (contains "/") params
      then err multiple_subnet
      else ok (some (set_ips params))

  unfoldable pub select_action : List String → Result ParameterError (Option UpdateAction)
  unfolding single_action several_action
  select_action [] = ok none
  select_action (param ∷ []) = single_action param
  select_action (param ∷ other ∷ params) = several_action (param ∷ other ∷ params)

  -- `_get_action_from_param`
  unfoldable pub get_action_from_param :
      String → List String → Result ParameterError (Option UpdateAction)
  unfolding relevant select_action
  get_action_from_param separator parts = select_action (relevant separator parts)

  -- `_find_action`: the first of the parameters that selects an action, or the client's address
  unfoldable pub find_action :
      String → String → Dict String (List String) → List String → Result ParameterError UpdateAction
  unfolding get_action_from_param contains
  find_action separator client_ip query_params [] = ok (remote_action separator client_ip)
  find_action separator client_ip query_params (key ∷ param_keys) =
      let rest = find_action separator client_ip query_params param_keys in
      elim (get key query_params) [
        | none ↦ rest
        | some parts ↦ do
          found ← get_action_from_param separator parts
          elim found [ none ↦ rest | some action ↦ ok action ]
      ]

  -- `extra_actions`, in the order of the parameters
  unfoldable pub extra_actions :
      List (Item × List String) → Result ParameterError (List (Item × Option UpdateAction))
  unfolding get_action_from_param
  extra_actions [] = ok []
  extra_actions ((item, parts) ∷ params) =
      let rest = extra_actions params in
      do
        action ← get_action_from_param (separator_of item.0) parts
        others ← rest
        ok ((item, action) ∷ others)

-- a dictionary display, or `update`, with the entries in order
unfoldable pub put_all : {K V : Type 0} ⦃e : Eq K⦄ → List (K × V) → Dict K V → Dict K V
unfolding put
put_all [] d = d
put_all ((k, v) ∷ entries) d = put_all entries (put k v d)

-- the entries of `subname_actions` for the names of the request
unfoldable pub subname_actions :
    List String → UpdateAction → UpdateAction → List (Item × Option UpdateAction)
subname_actions [] a aaaa = []
subname_actions (subname ∷ subnames) a aaaa =
    (("A", subname), some a) ∷ (("AAAA", subname), some aaaa) ∷ subname_actions subnames a aaaa

module _ (str_ip : Address → String) where
  -- `_get_records`; an extra parameter without an action has none, and no case of the `match`
  unfoldable pub get_records : List Address → Option UpdateAction → Option (List String)
  unfolding replace_ip_subnet
  get_records records none = none
  get_records records (some (set_ips ips)) = some ips
  get_records records (some (update_with_subnet subnet)) =
      some (map str_ip (replace_ip_subnet records subnet))
  get_records records (some preserve_ips) = none

  -- `data`: the new records of each RR set that is not preserved
  unfoldable pub records_data :
      (String → List Address) → Dict Item (Option UpdateAction) → Dict Item (List String)
  unfolding get_records
  records_data subname_records [] = []
  records_data subname_records ((item, action) ∷ actions) =
      let rest = records_data subname_records actions in
      elim (get_records (subname_records item.1) action) [
        | none ↦ rest
        | some records ↦ (item, records) ∷ rest
      ]

-- The query of a request.
pub record DynRequest : Type 0 where
  pub query_params : Dict String (List String)
  pub extra_params : List (Item × List String)
  pub client_ip : String
  pub subnames : List String

abbrev pub ipv4_keys : List String
ipv4_keys = "myip" ∷ "myipv4" ∷ "ip" ∷ []

abbrev pub ipv6_keys : List String
ipv6_keys = "myipv6" ∷ "ipv6" ∷ "myip" ∷ "ip" ∷ []

-- `get`, up to the serializer
unfoldable pub update_data :
    (String → Option Network)
    → (Address → String)
    → DynRequest
    → (String → List Address)
    → Result ParameterError (Dict Item (List String))
unfolding find_action extra_actions put_all subname_actions records_data
update_data ip_network str_ip r subname_records = do
  extra ← extra_actions ip_network r.extra_params
  a ← find_action ip_network "." r.client_ip r.query_params ipv4_keys
  aaaa ← find_action ip_network ":" r.client_ip r.query_params ipv6_keys
  let actions = put_all extra (put_all (subname_actions r.subnames a aaaa) [])
  ok (records_data str_ip subname_records actions)
