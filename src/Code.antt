-- ===== src/Code.antt =====
-- serializers/authenticated_actions.py: `_pack_code` and `_unpack_code`. A code is a list of code
-- points. What crypto.py makes of the JSON text of some data is a parameter, `encrypt`, as is what it
-- reads back from a token within the time to live, `decrypt`, where none is its ValueError and those
-- of JSON and base64.
pub mod Padding
use desec_stack.Common.{
  ℕ, zero, suc, ◌+◌, ◌-◌, ◌%◌, ◌&&◌, Option, none, some, List, [], ◌∷◌, ◌++◌, arith, nat_beq,
  if◌then◌else◌, nat_eq, string_eq, pair_eq, option_eq, Result, ok, err, length, is_empty,
}

-- `"="`
abbrev pub equals_sign : ℕ
equals_sign = 61

-- `code.rstrip("=")`
unfoldable pub rstrip_equals : List ℕ → List ℕ
rstrip_equals [] = []
rstrip_equals (c ∷ code) =
    let rest = rstrip_equals code in if is_empty rest && nat_beq c equals_sign then [] else c ∷ rest

-- `n * "="`
unfoldable pub equals_signs : ℕ → List ℕ
equals_signs zero = []
equals_signs (suc n) = equals_sign ∷ equals_signs n

-- `code + -len(code) % 4 * "="`
unfoldable pub pad_code : List ℕ → List ℕ
unfolding equals_signs
pad_code code = code ++ equals_signs ((4 - length code % 4) % 4)

pub data CodeError : Type 0 where
  value_error : CodeError

module _ {Data : Type 0} (encrypt : Data → List ℕ)
    (decrypt : List ℕ → Option ℕ → Option (ℕ × Data)) where
  -- `_pack_code`
  unfoldable pub pack_code : Data → List ℕ
  unfolding rstrip_equals
  pack_code value = rstrip_equals (encrypt value)

  -- `_unpack_code`: the timestamp and the data
  unfoldable pub unpack_code : List ℕ → Option ℕ → Result CodeError (ℕ × Data)
  unfolding pad_code
  unpack_code code ttl = elim (decrypt (pad_code code) ttl) [
    | none ↦ err value_error
    | some found ↦ ok found
  ]
