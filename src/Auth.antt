-- ===== src/Auth.antt =====
-- backend/src/auth.cpp. The authorization header of a call, `none` where it has none, is looked up by
-- the gRPC library.
use multi_radio.Common.{
  ◌≡◌, refl, ap, ◌↔◌, ◌⊎◌, inl, inr, Bool, true, false, Option, none, some, [], ◌∷◌, ◌++◌, arith,
  if◌then◌else◌, is_empty, Bytes, codes, same, same_iff,
}

unfoldable pub validate_bearer_token_value : Bytes → Bytes → Bool
validate_bearer_token_value header expected =
    if is_empty expected then true else same header (codes "Bearer " ++ expected)

unfoldable pub validate_bearer_token : Option Bytes → Bytes → Bool
unfolding validate_bearer_token_value
validate_bearer_token metadata expected =
    if is_empty expected
    then true
    else elim metadata [ none ↦ false | some header ↦ validate_bearer_token_value header expected ]

-- A call is let in exactly if no token is expected or its authorization header is there and is the
-- word Bearer, a space and the token expected.
pub validate_bearer_token_iff :
    (metadata : Option Bytes) (expected : Bytes)
    → (validate_bearer_token metadata expected ≡ true)
      ↔ ((expected ≡ []) ⊎ (metadata ≡ some (codes "Bearer " ++ expected)))
unfolding validate_bearer_token validate_bearer_token_value
validate_bearer_token_iff metadata [] = (λ h. inl refl, λ h. refl)
validate_bearer_token_iff none (c ∷ s) = (λ h. cc, λ h. elim h [ inl e ↦ cc | inr e ↦ cc ])
validate_bearer_token_iff (some header) (c ∷ s) =
    let both = same_iff header (codes "Bearer " ++ (c ∷ s)) in
    (λ h. inr (ap some (both.0 h)), λ h. elim h [ inl e ↦ cc | inr e ↦ ground (arith, e, both) ])
