-- ===== src/Slug/Tests.antt =====
-- internal/core/slug.go: the theorem at a slug, and what the error message would admit.
use specd.Prelude.{true, false, ◌≡◌, ◌↔◌, refl}
use specd.Slug.{valid_slug, IsSlug, valid_slug-IsSlug}

valid_slug-IsSlug_example : (valid_slug "a-b" ≡ true) ↔ IsSlug "a-b"
valid_slug-IsSlug_example = valid_slug-IsSlug "a-b"

joined-accepted : valid_slug "a-b2" ≡ true
unfolding valid_slug
joined-accepted = refl

-- Both match the pattern of the message, `^[a-z0-9][a-z0-9-]*$`.
doubled-refused : (valid_slug "a--b" ≡ false) × (valid_slug "a-" ≡ false)
unfolding valid_slug
doubled-refused = (refl, refl)
