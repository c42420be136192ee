-- ===== src/Access/Upkeep.antt =====
-- authentication.py: a token that is used often enough is accepted for ever.
use desec_stack.Common.{
  ℕ, ◌+◌, String, ◌≡◌, refl, ◌∙◌, inl, inr, Bool, true, false, ◌&&◌, Option, none, some, List, [],
  ◌∷◌, map, arith, leb, Bool-cases, ==_iff, nat_eq, string_eq, pair_eq, option_eq, Result, ok, err,
  keep, In, In-map_inv, In-keep,
}
use desec_stack.Token.{Token, is_valid, or_created}
use desec_stack.Token.Soundness.{IsSound}
use desec_stack.Access.{
  Credential, with_key, Library, Request, AuthError, has_key, with_token, save_row, use_token,
  is_allowed_address, authenticate,
}
use desec_stack.Access.Authentic.{IsLookup, AllSound, valid_credentials}

abbrev pub is_accepted : Result AuthError (Option Credential) → Bool
is_accepted (ok (some c)) = true
is_accepted (ok none) = false
is_accepted (err e) = false

-- each request of the list is accepted, one after the other
unfoldable pub accepts_each : Library → ℕ → List Request → List Credential → Bool
unfolding authenticate
accepts_each lib id [] rows = true
accepts_each lib id (r ∷ rs) rows =
    let (after, answer) = authenticate lib id r rows in
    is_accepted answer && accepts_each lib id rs after

abbrev pub last_use : Credential → ℕ
last_use c = or_created c.token.last_used c.token.created

-- no more than the period passes from one request to the next
abbrev pub is_regular : ℕ → ℕ → List Request → Bool
is_regular period last [] = true
is_regular period last (r ∷ rs) = leb r.now (last + period) && is_regular period r.now rs

-- The only token of the key, of an active user, which expires by lack of use alone.
pub record IsRenewable (key : String) (period : ℕ) (rows : List Credential) (c : Credential)
    : Type 0 where
  pub unique : keep (has_key key) rows ≡ c ∷ []
  pub active : c.user.is_active ≡ some true
  pub ageless : c.token.max_age ≡ none
  pub limited : c.token.max_unused_period ≡ some period
  pub sound : AllSound rows

-- A request with that key from one of the networks.
pub record IsProper (lib : Library) (key : String) (c : Credential) (r : Request) : Type 0 where
  pub header : lib.read_header r.authorization ≡ with_key key
  pub allowed : is_allowed_address lib r.remote_addr c ≡ true

keep-save_row :
    (key : String) (t : Token) (rows : List Credential)
    → keep (has_key key) (save_row key t rows) ≡ map (with_token key t) (keep (has_key key) rows)
unfolding keep save_row
keep-save_row key t [] = refl
keep-save_row key t (c ∷ rows) = ground (arith, keep-save_row key t rows)

use_token-IsSound : (now : ℕ) (t : Token) → IsSound t → IsSound (use_token now t)
use_token-IsSound now t v = record {
  one_default = v.one_default;
  made = v.made;
  separate = v.separate;
}

save_row-AllSound :
    (key : String) (t : Token) (rows : List Credential)
    → IsSound t
    → AllSound rows
    → AllSound (save_row key t rows)
unfolding save_row
save_row-AllSound key t rows v sound c i =
    let (d, j, e) = In-map_inv (with_token key t) c rows i in
    elim (Bool-cases (has_key key d)) [
      | inl h ↦ (let same : c ≡ record d { token = t } = e ∙ rw h in rw (same) v)
      | inr h ↦ (let same : c ≡ d = e ∙ rw h in rw (same) (sound d j))
    ]

is_valid-renewable :
    (key : String) (period : ℕ) (rows : List Credential) (c : Credential) (now : ℕ)
    → IsRenewable key period rows c
    → leb now (last_use c + period) ≡ true
    → is_valid c.token now ≡ true
unfolding is_valid
is_valid-renewable key period rows c now v h =
    let a = v.ageless in let l = v.limited in ground arith

module _ (lib : Library) (is_lookup : IsLookup lib.look_up) (id : ℕ) (key : String)
    (period : ℕ) where
  -- a token as it is after its use, and the rows with it
  used_IsRenewable :
      (rows : List Credential) (c : Credential) (now : ℕ)
      → c.key ≡ lib.make_hash key
      → IsRenewable (lib.make_hash key) period rows c
      → IsRenewable
          (lib.make_hash key)
          period
          (save_row c.key (use_token now c.token) rows)
          (record c { token = use_token now c.token })
  used_IsRenewable rows c now same v =
      let t = use_token now c.token in
      let (i, _) = In-keep (has_key (lib.make_hash key)) c rows (rw v.unique (inl refl)) in
      record {
        unique =
            rw (same, keep-save_row (lib.make_hash key) t rows, v.unique)
              (ground (arith, ==_iff c.key (lib.make_hash key)));
        active = v.active;
        ageless = v.ageless;
        limited = v.limited;
        sound =
            save_row-AllSound c.key t rows (use_token-IsSound now c.token (v.sound c i)) v.sound;
      }

  -- A request in time is accepted, and leaves a token that can be used for as long again.
  request_accepted :
      (r : Request) (rows : List Credential) (c : Credential)
      → IsRenewable (lib.make_hash key) period rows c
      → IsProper lib key c r
      → leb r.now (last_use c + period) ≡ true
      → (authenticate lib id r rows ≡ (
        save_row c.key (use_token r.now c.token) rows,
        ok (some (record c { token = use_token r.now c.token })),
      ))
        × (c.key ≡ lib.make_hash key)
  unfolding authenticate is_allowed_address
  request_accepted r rows c v p h =
      let (i, k) = In-keep (has_key (lib.make_hash key)) c rows (rw v.unique (inl refl)) in
      let found = is_lookup.found rows (lib.make_hash key) c v.unique v.active in
      let valid = is_valid-renewable (lib.make_hash key) period rows c r.now v h in
      let done = valid_credentials lib rows is_lookup v.sound r.now id key c found valid in
      let head = p.header in
      let allowed = p.allowed in (ground arith, ground (arith, ==_iff c.key (lib.make_hash key)))

  -- A token that expires by lack of use alone is accepted at every one of any number of requests with
  -- its key, if each comes from one of its networks and no more than the period after the one before,
  -- the first after the last use or creation.
  pub accepts_each-regular :
      (rs : List Request) (rows : List Credential) (c : Credential)
      → IsRenewable (lib.make_hash key) period rows c
      → ((r : Request) → In r rs → IsProper lib key c r)
      → is_regular period (last_use c) rs ≡ true
      → accepts_each lib id rs rows ≡ true
  unfolding accepts_each
  accepts_each-regular [] rows c v proper h = refl
  accepts_each-regular (r ∷ rs) rows c v proper h =
      let (accepted, same) = request_accepted r rows c v (proper r (inl refl)) (ground arith) in
      rw accepted (
        accepts_each-regular rs (save_row c.key (use_token r.now c.token) rows)
          (record c { token = use_token r.now c.token }) (used_IsRenewable rows c r.now same v)
          (λ q i. let p = proper q (inr i) in record { header = p.header; allowed = p.allowed })
          (ground arith))
