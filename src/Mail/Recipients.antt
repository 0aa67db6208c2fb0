-- ===== src/Mail/Recipients.antt =====
-- The recipient lists of the compose page: the validator of a list of tags, and its payload.
use Prim.Native.String.{String}
use testkit_service.Prelude.{
  Bool, true, false, Option, none, some, List, [], ◌∷◌, not, ◌&&◌, keep, map, if◌then◌else◌, ◌≡◌,
  arith, All, Bool-cases, inl, inr, refl, ◌↔◌, ◌≢◌, ◌⊎◌,
}
use testkit_service.Mail.Text.{is_empty, trim}
use testkit_service.Mail.Address.{Address, parse_address_tag, is_email}

-- `tags.filter((tag) => tag.trim() !== "")`
unfoldable pub filled_tags : List String → List String
filled_tags tags = keep (λ tag. not (is_empty (trim tag))) tags

-- addressListValidator: the addresses that it rejects, or that there is none
pub data Rejection : Type 0 where
  no_recipient : Rejection
  bad_addresses : List String → Rejection

abbrev rejected_by : List Address → Option Rejection
rejected_by [] = none
rejected_by (a ∷ as_) = some (bad_addresses (map (λ (a : Address). a.email) (a ∷ as_)))

abbrev has_none : {A : Type 0} → List A → Bool
has_none [] = true
has_none (x ∷ xs) = false

unfoldable pub validate_addresses : Bool → List String → Option Rejection
validate_addresses is_required tags =
    let kept = filled_tags tags in
    let invalid = keep (λ a. not (is_email a.email)) (map parse_address_tag kept) in
    if is_required && has_none kept then some no_recipient else rejected_by invalid

-- toAddressPayload
unfoldable pub to_address_payload : List String → List Address
to_address_payload tags = map parse_address_tag (filled_tags tags)

kept_none :
    (f : Address → Bool) (xs : List Address)
    → rejected_by (keep (λ a. not (f a)) xs) ≡ none
    → All (λ a. f a ≡ true) xs
kept_none f [] h = tt
kept_none f (x ∷ xs) h = elim (Bool-cases (f x)) [
  | inl good ↦ (good, kept_none f xs (ground (arith, h, good)))
  | inr bad ↦ ground (arith, h, bad)
]

none_kept :
    (f : Address → Bool) (xs : List Address)
    → All (λ a. f a ≡ true) xs
    → rejected_by (keep (λ a. not (f a)) xs) ≡ none
none_kept f [] h = refl
none_kept f (x ∷ xs) (good, hs) = rw good (none_kept f xs hs)

has_none-map : (tags : List String) → (has_none tags ≡ true) ↔ (map parse_address_tag tags ≡ [])
has_none-map [] = (λ _. refl, λ _. refl)
has_none-map (x ∷ xs) = ground arith

-- The validator accepts a list of tags exactly if each entry of the payload made of it matches the
-- pattern for addresses, and, where the list is required, the payload is not empty.
pub validate_addresses_iff :
    (is_required : Bool) (tags : List String)
    → (validate_addresses is_required tags ≡ none) ↔ (
        All (λ (a : Address). is_email a.email ≡ true) (to_address_payload tags)
        × ((is_required ≡ false) ⊎ (to_address_payload tags ≢ [])))
unfolding validate_addresses to_address_payload
validate_addresses_iff is_required tags =
    let kept = filled_tags tags in
    let parsed = map parse_address_tag kept in
    ground (
      arith,
      kept_none (λ a. is_email a.email) parsed,
      none_kept (λ a. is_email a.email) parsed,
      has_none-map kept,
      Bool-cases (is_required && has_none kept),
    )
