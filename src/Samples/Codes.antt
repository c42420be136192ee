-- ===== src/Samples/Codes.antt =====
-- The code of a small service.
use desec_stack.Common.{
  ℕ, ◌≡◌, refl, Option, none, some, List, [], ◌∷◌, arith, nat_eq, string_eq, pair_eq, option_eq, ok,
}
use desec_stack.Code.{rstrip_equals, equals_signs, pack_code, unpack_code}
use desec_stack.Code.Padding.{IsPadded, unpack_code-pack_code}

abbrev sample_encrypt : ℕ → List ℕ
sample_encrypt value = value ∷ 65 ∷ 61 ∷ 61 ∷ []

-- It reads nothing from a token without its padding.
abbrev sample_decrypt : List ℕ → Option ℕ → Option (ℕ × ℕ)
sample_decrypt (a ∷ b ∷ c ∷ d ∷ []) ttl = some (7, a)
sample_decrypt _ ttl = none

sample-IsPadded : (value : ℕ) → IsPadded (sample_encrypt value)
unfolding equals_signs rstrip_equals
sample-IsPadded value = record {
  body = value ∷ 65 ∷ [];
  padding = 2;
  parts = refl;
  bare = refl;
  short = omega arith;
  whole = refl;
}

packed : pack_code sample_encrypt sample_decrypt 70 ≡ 70 ∷ 65 ∷ []
unfolding pack_code rstrip_equals
packed = refl

unpack_code-pack_code_example :
    unpack_code sample_encrypt sample_decrypt (pack_code sample_encrypt sample_decrypt 70) (some 60)
    ≡ ok (7, 70)
unpack_code-pack_code_example =
    unpack_code-pack_code sample_encrypt sample_decrypt sample-IsPadded 70 (some 60) 7 refl
