-- ===== src/Strategy/Providers.antt =====
-- `applyAsProvider`, `reviewProviderApplication` and `requireApprovedProvider`.
use copytrade_dashboard.Base.{
  ℕ, ◌+◌, Bool, true, false, ◌||◌, Option, none, some, [], ◌∷◌, ◌++◌, find, any, ◌==◌,
  if◌then◌else◌,
}
use copytrade_dashboard.Text.{Text, text_eq}
use copytrade_dashboard.Types.{conflict, forbidden, not_found, validation_error}
use copytrade_dashboard.Store.Monad.{app_error, Action, ◌>>◌, pure, throw, throw_if, modify}
use copytrade_dashboard.Store.Tables.{update_where}
use copytrade_dashboard.Strategy.Slug.{is_empty, slugify}
use copytrade_dashboard.Strategy.State.{ProviderStatus, ProviderProfile, Catalog}

pub record ProviderApplicationInput : Type 0 where
  pub display_name : Text
  pub fields : ℕ

pub data Decision : Type 0 where
  approve reject suspend : Decision

pub record ProviderReviewInput : Type 0 where
  pub decision : Decision
  pub review_note : Option Text
  pub public_reason : Option Text

abbrev pub find_provider_of : ℕ → Catalog → Option ProviderProfile
find_provider_of user_id w = find (λ p. p.user_id == user_id) w.providers

abbrev pub update_provider : ℕ → (ProviderProfile → ProviderProfile) → Action Catalog (Unit {0})
update_provider id f =
    modify λ w. record w { providers = update_where (λ p. p.id == id) f w.providers }

abbrev is_rejected : ProviderStatus → Bool
is_rejected ProviderStatus.rejected = true
is_rejected _ = false

abbrev pub is_approved : ProviderStatus → Bool
is_approved ProviderStatus.approved = true
is_approved _ = false

-- A second application clears the review.
abbrev reapplied : ProviderApplicationInput → ℕ → ProviderProfile → ProviderProfile
reapplied input now p = record p {
  display_name = input.display_name;
  fields = input.fields;
  status = ProviderStatus.pending;
  applied_at = now;
  reviewed_at = none;
  reviewed_by_id = none;
  review_note = none;
  public_reason = none;
}

abbrev new_profile : ProviderApplicationInput → Text → ℕ → ℕ → ℕ → ProviderProfile
new_profile input slug id user_id now = record {
  id = id;
  user_id = user_id;
  display_name = input.display_name;
  slug = slug;
  fields = input.fields;
  status = ProviderStatus.pending;
  applied_at = now;
  reviewed_at = none;
  reviewed_by_id = none;
  review_note = none;
  public_reason = none;
  total_strategies = 0;
}

-- `providerRepository.displayNameTaken`
abbrev is_taken : Text → Text → Catalog → Bool
is_taken name slug w =
    any (λ (p : ProviderProfile). text_eq p.display_name name || text_eq p.slug slug) w.providers

-- `fold` lowers and normalises a name.
module _ (fold : Text → Text) where
  unfoldable pub apply_first : ℕ → ProviderApplicationInput → Action Catalog (Unit {0})
  apply_first user_id input = do
    let slug = slugify fold input.display_name
    throw_if (is_empty slug) (app_error validation_error)
    λ w. throw_if (is_taken input.display_name slug w) (app_error conflict) w
    modify λ w. record w {
      providers = w.providers ++ new_profile input slug w.next_id user_id w.now ∷ [];
      next_id = w.next_id + 1;
    }

  unfoldable pub apply_with :
      ℕ → ProviderApplicationInput → Option ProviderProfile → Action Catalog (Unit {0})
  unfolding apply_first
  apply_with user_id input none = apply_first user_id input
  apply_with user_id input (some p) =
      if is_rejected p.status
      then (λ w. update_provider p.id (reapplied input w.now) w)
      else throw (app_error conflict)

  unfoldable pub apply_as_provider : ℕ → ProviderApplicationInput → Action Catalog (Unit {0})
  unfolding apply_with
  apply_as_provider user_id input w = apply_with user_id input (find_provider_of user_id w) w

abbrev decided : Decision → ProviderStatus
decided Decision.approve = ProviderStatus.approved
decided Decision.reject = ProviderStatus.rejected
decided Decision.suspend = ProviderStatus.suspended

-- `!input.publicReason`: an empty reason is none.
abbrev needs_reason : Decision → Option Text → Bool
needs_reason Decision.approve reason = false
needs_reason _ none = true
needs_reason _ (some reason) = is_empty reason

unfoldable pub review_found :
    ℕ → ProviderReviewInput → Option ProviderProfile → Action Catalog (Unit {0})
review_found reviewer_id input none = throw (app_error not_found)
review_found reviewer_id input (some p) = do
  throw_if (needs_reason input.decision input.public_reason) (app_error validation_error)
  λ w.
      update_provider p.id
        (λ x. record x {
          status = decided input.decision;
          reviewed_at = some w.now;
          reviewed_by_id = some reviewer_id;
          review_note = input.review_note;
          public_reason = input.public_reason;
        })
        w

unfoldable pub review_provider_application : ℕ → ℕ → ProviderReviewInput → Action Catalog (Unit {0})
unfolding review_found
review_provider_application provider_id reviewer_id input w =
    review_found reviewer_id input (find (λ p. p.id == provider_id) w.providers) w

unfoldable pub approved_or_throw : Option ProviderProfile → Action Catalog ProviderProfile
approved_or_throw none = throw (app_error forbidden)
approved_or_throw (some p) = if is_approved p.status then pure p else throw (app_error forbidden)

unfoldable pub require_approved_provider : ℕ → Action Catalog ProviderProfile
unfolding approved_or_throw
require_approved_provider user_id w = approved_or_throw (find_provider_of user_id w) w
