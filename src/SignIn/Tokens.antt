-- ===== src/SignIn/Tokens.antt =====
-- The tokens of the API: `list_tokens`, `create_token` and `revoke_token` of
-- src/podarium/api/auth_routes.py over the rows of `api_tokens`.
use podarium.Prelude.{
  ℕ, String, not, Option, none, some, List, ◌∷◌, ◌==◌, leb, if◌then◌else◌, filter, find, sort_by,
}
use podarium.Model.Enums.{Stamp}
use podarium.Model.User.{ApiToken}

unfoldable pub list_tokens : ℕ → List ApiToken → List ApiToken
list_tokens u tokens = sort_by (λ a b. leb a.id b.id) (filter (λ t. t.user_id == u) tokens)

-- Only the hash of the token is stored.
unfoldable pub create_token : ℕ → Stamp → ℕ → String → String → List ApiToken → List ApiToken
create_token id now u name hash tokens =
    record {
      id = id;
      user_id = u;
      name = name;
      token_hash = hash;
      created_at = now;
      last_used_at = none;
    }
    ∷ tokens

-- By the row of the id, if there is one; `none` is the answer 404.
unfoldable pub revoke_found : ℕ → ℕ → Option ApiToken → List ApiToken → Option (List ApiToken)
revoke_found u id none tokens = none
revoke_found u id (some t) tokens =
    if t.user_id == u then some (filter (λ x. not (x.id == id)) tokens) else none

unfoldable pub revoke_token : ℕ → ℕ → List ApiToken → Option (List ApiToken)
unfolding revoke_found
revoke_token u id tokens = revoke_found u id (find (λ t. t.id == id) tokens) tokens

-- Whoever revokes a token, those of the others stay, and in their order: ids are unique.
