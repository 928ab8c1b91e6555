-- ===== src/Examples/Auth.antt =====
-- A key of 32 bytes, its text and a token made of it (apps/api/src/auth.rs).
use safeory.Base.{ℕ, ◌≡◌, refl, true, some, List, [], ◌∷◌, ◌++◌, arith, decode_pairs}
use safeory.Api.Auth.{
  bearer_prefix, parse_public_key_hex, is_valid_device_token, bearer_token, generate_device_token,
  device_token_hash,
}
use safeory.Api.Auth.Laws.{bearer_token-generate_device_token}

abbrev key : List ℕ
key =
    5 ∷ 42 ∷ 79 ∷ 116 ∷ 153 ∷ 190 ∷ 227 ∷ 8 ∷ 45 ∷ 82 ∷ 119 ∷ 156 ∷ 193 ∷ 230 ∷ 11 ∷ 48 ∷ 85 ∷ 122
    ∷ 159 ∷ 196 ∷ 233 ∷ 14 ∷ 51 ∷ 88 ∷ 125 ∷ 162 ∷ 199 ∷ 236 ∷ 17 ∷ 54 ∷ 91 ∷ 128 ∷ []

abbrev upper_case : List ℕ
upper_case =
    48 ∷ 53 ∷ 50 ∷ 65 ∷ 52 ∷ 70 ∷ 55 ∷ 52 ∷ 57 ∷ 57 ∷ 66 ∷ 69 ∷ 69 ∷ 51 ∷ 48 ∷ 56 ∷ 50 ∷ 68 ∷ 53
    ∷ 50 ∷ 55 ∷ 55 ∷ 57 ∷ 67 ∷ 67 ∷ 49 ∷ 69 ∷ 54 ∷ 48 ∷ 66 ∷ 51 ∷ 48 ∷ 53 ∷ 53 ∷ 55 ∷ 65 ∷ 57 ∷ 70
    ∷ 67 ∷ 52 ∷ 69 ∷ 57 ∷ 48 ∷ 69 ∷ 51 ∷ 51 ∷ 53 ∷ 56 ∷ 55 ∷ 68 ∷ 65 ∷ 50 ∷ 67 ∷ 55 ∷ 69 ∷ 67 ∷ 49
    ∷ 49 ∷ 51 ∷ 54 ∷ 53 ∷ 66 ∷ 56 ∷ 48 ∷ []

-- Upper-case digits are read too.
upper_case_read : parse_public_key_hex upper_case ≡ some key
unfolding parse_public_key_hex decode_pairs
upper_case_read = refl

abbrev identity : List ℕ → List ℕ
identity text = text

bearer_token-generate_device_token_example :
    (token : List ℕ) × (generate_device_token identity (some key)
      ≡ some (token, device_token_hash identity token))
    × (bearer_token (some (bearer_prefix ++ token)) ≡ some token)
    × (is_valid_device_token token ≡ true)
bearer_token-generate_device_token_example =
    bearer_token-generate_device_token identity key (omega arith) refl
