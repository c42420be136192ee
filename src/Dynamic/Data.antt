-- ===== src/Dynamic/Data.antt =====
-- views/dyndns.py: what the data for the bulk update say of each RR set.
use desec_stack.Common.{
  String, ◌≡◌, refl, sym, ap, ◌∙◌, inl, inr, Bool, true, ◌&&◌, ◌||◌, Option, none, some, List, [],
  ◌∷◌, arith, if◌then◌else◌, Eq, ◌==◌, ==_iff, nat_eq, string_eq, pair_eq, option_eq, ok, >>=-eq-ok,
  ok_same, In, member, is_distinct, Dict, get, put, keys, get-put, keys-get-none,
  is_distinct-keys-put,
}
use desec_stack.Db.{Item}
use desec_stack.Dynamic.{
  Address, Network, UpdateAction, get_action_from_param, separator_of, extra_actions, put_all,
  subname_actions, get_records, records_data,
}

module _ {K V : Type 0} ⦃keyed : Eq K⦄ where
  -- Entries whose values their keys determine.
  get-put_all_last :
      (k : K) (f : K → V) (entries : List (K × V)) (d : Dict K V)
      → ((e : K × V) → In e entries → e.1 ≡ f e.0)
      → get k (put_all entries d) ≡ (if member k (keys entries) then some (f k) else get k d)
  unfolding put_all member keys
  get-put_all_last k f [] d h = refl
  get-put_all_last k f ((j, v) ∷ entries) d h =
      let ih = get-put_all_last k f entries (put j v d) (λ e i. h e (inr i)) in
      let value : (k == j) ≡ true → v ≡ f k =
        λ e. h (j, v) (inl refl) ∙ ap f (sym ((==_iff k j).0 e)) in
      let step = get-put k j v d in ground (arith, ih, value, step)

  -- A dictionary with distinct keys that updates another one.
  get-put_all :
      (k : K) (entries : List (K × V)) (d : Dict K V)
      → is_distinct (keys entries) ≡ true
      → get k (put_all entries d) ≡ elim (get k entries) [ none ↦ get k d | some v ↦ some v ]
  unfolding put_all is_distinct keys get
  get-put_all k [] d h = refl
  get-put_all k ((j, v) ∷ entries) d h =
      let ih = get-put_all k entries (put j v d) (ground arith) in
      let step = get-put k j v d in
      let absent = keys-get-none j entries (ground arith) in
      ground (arith, ih, step, absent, ==_iff k j)

  is_distinct-keys-put_all :
      (entries : List (K × V)) (d : Dict K V)
      → is_distinct (keys d) ≡ true
      → is_distinct (keys (put_all entries d)) ≡ true
  unfolding put_all
  is_distinct-keys-put_all [] d h = h
  is_distinct-keys-put_all ((k, v) ∷ entries) d h =
      is_distinct-keys-put_all entries (put k v d) (is_distinct-keys-put k v d h)

-- What the request does to an RR set of a name it lists: the action of the type.
abbrev main_action : UpdateAction → UpdateAction → Item → UpdateAction
main_action a aaaa item = if item.0 == "A" then a else aaaa

subname_actions-main :
    (subnames : List String) (a aaaa : UpdateAction) (e : Item × Option UpdateAction)
    → In e (subname_actions subnames a aaaa)
    → e.1 ≡ some (main_action a aaaa e.0)
unfolding subname_actions
subname_actions-main [] a aaaa e i = absurd i
subname_actions-main (s ∷ ss) a aaaa e (inl h) =
    ap (λ (p : Item × Option UpdateAction). p.1) h
    ∙ ap (λ (p : Item × Option UpdateAction). some (main_action a aaaa p.0)) (sym h)
subname_actions-main (s ∷ ss) a aaaa e (inr (inl h)) =
    ap (λ (p : Item × Option UpdateAction). p.1) h
    ∙ ap (λ (p : Item × Option UpdateAction). some (main_action a aaaa p.0)) (sym h)
subname_actions-main (s ∷ ss) a aaaa e (inr (inr i)) = subname_actions-main ss a aaaa e i

abbrev pub is_address_type : String → Bool
is_address_type type = type == "A" || type == "AAAA"

member-subname_actions :
    (subnames : List String) (a aaaa : UpdateAction) (item : Item)
    → member item (keys (subname_actions subnames a aaaa))
      ≡ (is_address_type item.0 && member item.1 subnames)
unfolding subname_actions member keys
member-subname_actions [] a aaaa item = ground arith
member-subname_actions (s ∷ ss) a aaaa item = ground (arith, member-subname_actions ss a aaaa item)

module _ (str_ip : Address → String) (subname_records : String → List Address) where
  -- `data` has the records that each action gives, and leaves out what has none.
  get-records_data :
      (k : Item) (actions : Dict Item (Option UpdateAction))
      → is_distinct (keys actions) ≡ true
      → get k (records_data str_ip subname_records actions) ≡ elim (get k actions) [
        | none ↦ none
        | some action ↦ get_records str_ip (subname_records k.1) action
      ]
  unfolding records_data is_distinct keys get
  get-records_data k [] h = refl
  get-records_data k ((j, action) ∷ actions) h =
      let ih = get-records_data k actions (ground arith) in
      let absent = keys-get-none j actions (ground arith) in
      let equal = ==_iff k j in
      let none_later : (k == j) ≡ true → get k actions ≡ none =
        λ e. ap (λ i. get i actions) (equal.0 e) ∙ absent in
      let same : (k == j) ≡ true
          → get_records str_ip (subname_records j.1) action
            ≡ get_records str_ip (subname_records k.1) action =
        λ e. ap (λ (i : Item). get_records str_ip (subname_records i.1) action) (sym (equal.0 e)) in
      ground (arith, ih, none_later, same)

  -- the records of the action that `actions` has for an RR set
  abbrev pub expected :
      List (Item × Option UpdateAction)
      → List String
      → UpdateAction
      → UpdateAction
      → Item
      → Option (List String)
  expected extra subnames a aaaa k = elim (get k extra) [
    | some action ↦ get_records str_ip (subname_records k.1) action
    | none ↦
        if is_address_type k.0 && member k.1 subnames
        then get_records str_ip (subname_records k.1) (some (main_action a aaaa k))
        else none
  ]

pub keys-extra_actions :
    (ip_network : String → Option Network) (params : List (Item × List String))
    {extra : List (Item × Option UpdateAction)}
    → extra_actions ip_network params ≡ ok extra
    → keys extra ≡ keys params
unfolding extra_actions keys
keys-extra_actions ip_network [] h = ap keys (sym (ok_same h))
keys-extra_actions ip_network ((item, parts) ∷ params) h =
    let (action, _, h1) =
      >>=-eq-ok (get_action_from_param ip_network (separator_of item.0) parts) _ h in
    let (others, f, h2) = >>=-eq-ok (extra_actions ip_network params) _ h1 in
    ap keys (sym (ok_same h2)) ∙ ap (λ ks. item ∷ ks) (keys-extra_actions ip_network params f)

-- `subname_actions` of `get`, looked up.
get-actions :
    (extra : List (Item × Option UpdateAction)) (subnames : List String) (a aaaa : UpdateAction)
    (k : Item)
    → is_distinct (keys extra) ≡ true
    → get k (put_all extra (put_all (subname_actions subnames a aaaa) [])) ≡ elim (get k extra) [
      | some action ↦ some action
      | none ↦
          if is_address_type k.0 && member k.1 subnames
          then some (some (main_action a aaaa k))
          else none
    ]
unfolding get
get-actions extra subnames a aaaa k h =
    let mains = subname_actions subnames a aaaa in
    let outer = get-put_all k extra (put_all mains []) h in
    let inner =
      get-put_all_last k (λ i. some (main_action a aaaa i)) mains []
        (subname_actions-main subnames a aaaa) in
    let named = member-subname_actions subnames a aaaa k in ground (arith, outer, inner, named)

abbrev no_actions : Dict Item (Option UpdateAction)
no_actions = []

no_keys : is_distinct (keys no_actions) ≡ true
unfolding is_distinct keys
no_keys = refl

pub get-expected :
    (str_ip : Address → String) (subname_records : String → List Address)
    (extra : List (Item × Option UpdateAction)) (subnames : List String) (a aaaa : UpdateAction)
    (k : Item)
    → is_distinct (keys extra) ≡ true
    → get k (
        records_data str_ip subname_records
          (put_all extra (put_all (subname_actions subnames a aaaa) [])))
      ≡ expected str_ip subname_records extra subnames a aaaa k
get-expected str_ip subname_records extra subnames a aaaa k once =
    let actions = put_all extra (put_all (subname_actions subnames a aaaa) []) in
    let keyed =
      is_distinct-keys-put_all extra (put_all (subname_actions subnames a aaaa) [])
        (is_distinct-keys-put_all (subname_actions subnames a aaaa) [] no_keys) in
    let shown = get-records_data str_ip subname_records k actions keyed in
    let looked_up = get-actions extra subnames a aaaa k once in ground (arith, shown, looked_up)
