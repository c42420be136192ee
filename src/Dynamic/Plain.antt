-- ===== src/Dynamic/Plain.antt =====
-- views/dyndns.py: the texts that a parameter makes the records of an RR set.
use desec_stack.Common.{
  String, ◌≡◌, sym, ap, ◌∙◌, inl, inr, Bool, true, false, ◌||◌, Option, some, List, [], ◌∷◌, arith,
  Bool-cases, Option-cases, ◌==◌, nat_eq, string_eq, pair_eq, option_eq, ok, keep, any, In, In-keep,
  any-In, In-member, member-In, to_set, member-to_set,
}
use desec_stack.Dynamic.{
  Network, set_ips, contains, is_keyword, relevant, subnet_action, single_action, several_action,
  select_action, get_action_from_param,
}
use mathlib.Core.Path.{subst}

relevant-In :
    (separator : String) (parts : List String) (x : String)
    → In x (relevant separator parts)
    → In x parts × ((contains separator x || is_keyword x) ≡ true)
unfolding relevant
relevant-In separator parts x i =
    let p : String → Bool = λ param. contains separator param || is_keyword param in
    let m = member-In x (to_set (keep p parts)) i in
    In-keep p x parts (In-member x (keep p parts) (sym (member-to_set x (keep p parts)) ∙ m))

-- An address as it was sent: one of the parts, of the type of the separator and without a subnet.
pub record IsPlain (separator : String) (parts : List String) (x : String) : Type 0 where
  pub sent : In x parts
  pub typed : contains separator x ≡ true
  pub whole : contains "/" x ≡ false
  pub unreserved : is_keyword x ≡ false

none_any :
    {A : Type 0} (p : A → Bool) (x : A) (xs : List A) → In x xs → any p xs ≡ false → p x ≡ false
none_any p x xs i h = ground (arith, any-In p x xs i)

only : {A : Type 0} (x y : A) → In x (y ∷ []) → x ≡ y
only x y (inl e) = e
only x y (inr i) = absurd i

module _ (ip_network : String → Option Network) where
  subnet_action-set_ips :
      (param : String) {ips : List String}
      → subnet_action ip_network param ≡ ok (some (set_ips ips))
      → true ≡ false
  subnet_action-set_ips param h = elim (Option-cases (ip_network param)) [
    | inl e ↦ ground arith
    | inr (n, e) ↦ ground arith
  ]

  single_action-set_ips :
      (param x : String) {ips : List String}
      → single_action ip_network param ≡ ok (some (set_ips ips))
      → In x ips
      → (x ≡ param) × (contains "/" x ≡ false) × (is_keyword x ≡ false)
  unfolding single_action
  single_action-set_ips param x {ips} h i = elim (Bool-cases (param == "")) [
    | inl a ↦ let e : [] ≡ ips = ground arith in absurd (subst (In x) (sym e) i)
    | inr a ↦ elim (Bool-cases (param == "preserve")) [
      | inl b ↦ absurd (ground arith)
      | inr b ↦ elim (Bool-cases (contains "/" param)) [
        | inl c ↦
            let k : subnet_action ip_network param ≡ ok (some (set_ips ips)) = ground arith in
            let f = subnet_action-set_ips param k in absurd (ground arith)
        | inr c ↦
            let e : param ∷ [] ≡ ips = ground arith in
            let k : x ≡ param = only x param (subst (In x) (sym e) i) in
            (k, ap (contains "/") k ∙ c, ap is_keyword k ∙ ground arith)
      ]
    ]
  ]

  several_action-set_ips :
      (params : List String) (x : String) {ips : List String}
      → several_action ip_network params ≡ ok (some (set_ips ips))
      → In x ips
      → In x params × (contains "/" x ≡ false) × (is_keyword x ≡ false)
  unfolding several_action
  several_action-set_ips params x {ips} h i =
      let k : any is_keyword params ≡ false = ground arith in
      let s : any (contains "/") params ≡ false = ground arith in
      let e : params ≡ ips = ground arith in
      let j : In x params = subst (In x) (sym e) i in
      (j, none_any (contains "/") x params j s, none_any is_keyword x params j k)

  select_action-set_ips :
      (params : List String) (x : String) {ips : List String}
      → select_action ip_network params ≡ ok (some (set_ips ips))
      → In x ips
      → In x params × (contains "/" x ≡ false) × (is_keyword x ≡ false)
  unfolding select_action
  select_action-set_ips [] x h i = absurd (ground arith)
  select_action-set_ips (p ∷ []) x h i =
      let (e, s, k) = single_action-set_ips p x h i in (inl e, s, k)
  select_action-set_ips (p ∷ q ∷ params) x h i = several_action-set_ips (p ∷ q ∷ params) x h i

  -- Where a parameter sets addresses, each of them is one of the parts that were sent, has the
  -- separator of the type, and is no subnet and no keyword.
  pub get_action_from_param-IsPlain :
      (separator : String) (parts ips : List String)
      → get_action_from_param ip_network separator parts ≡ ok (some (set_ips ips))
      → (x : String) → In x ips
      → IsPlain separator parts x
  unfolding get_action_from_param
  get_action_from_param-IsPlain separator parts ips h x i =
      let (j, s, k) = select_action-set_ips (relevant separator parts) x h i in
      let (sent, r) = relevant-In separator parts x j in
      record { sent = sent; typed = ground arith; whole = s; unreserved = k }
