-- ===== src/Domain/Http.antt =====
-- src/domain/http.rs: the identity of a remote resource, and request options.
pub mod Laws
use paradown.Prelude.{
  String, Bool, true, false, not, ◌&&◌, ◌≡◌, refl, ◌↔◌, Option, some, none, List, [], ◌∷◌, ◌++◌,
  str_eq, eq_iff, arith, is_empty, is_some, or_else, append_assoc, append-nil, ap,
}

pub record HttpResourceIdentity : Type 0 where
  pub resolved_url : Option String
  pub entity_tag : Option String
  pub last_modified : Option String

unfoldable pub resume_validator : HttpResourceIdentity → Option String
resume_validator identity = or_else identity.entity_tag identity.last_modified

unfoldable pub has_resume_validator : HttpResourceIdentity → Bool
unfolding resume_validator
has_resume_validator identity = is_some (resume_validator identity)

-- The inner `match` on (last_modified, last_modified).
unfoldable pub last_modified_changed : Option String → Option String → Bool
last_modified_changed (some current) (some next) = not (str_eq current next)
last_modified_changed (some current) none = true
last_modified_changed none next = false

-- The outer `match` on (entity_tag, entity_tag).
unfoldable pub entity_tag_changed : Option String → Option String → Bool → Bool
entity_tag_changed (some current) (some next) otherwise = not (str_eq current next)
entity_tag_changed (some current) none otherwise = true
entity_tag_changed none next otherwise = otherwise

unfoldable pub validator_changed : HttpResourceIdentity → HttpResourceIdentity → Bool
unfolding last_modified_changed entity_tag_changed
validator_changed current fresh =
    entity_tag_changed current.entity_tag fresh.entity_tag
      (last_modified_changed current.last_modified fresh.last_modified)

-- The validator that the fresh identity shows in the place where the stored one has its own.
abbrev pub matching_validator : HttpResourceIdentity → HttpResourceIdentity → Option String
matching_validator current fresh = elim current.entity_tag [
  | some tag ↦ fresh.entity_tag
  | none ↦ fresh.last_modified
]

pub record HttpHeader : Type 0 where
  pub name : String
  pub value : String

pub data HttpAuth : Type 0 where
  basic : String → Option String → HttpAuth
  bearer : String → HttpAuth

pub record HttpRequestOptions : Type 0 where
  pub headers : List HttpHeader
  pub cookie : Option String
  pub auth : Option HttpAuth
  pub user_agent : Option String

-- HttpRequestOptions::default
abbrev pub no_options : HttpRequestOptions
no_options = record { headers = []; cookie = none; auth = none; user_agent = none }

unfoldable pub merged : HttpRequestOptions → HttpRequestOptions → HttpRequestOptions
merged self overrides = record {
  headers = self.headers ++ overrides.headers;
  cookie = or_else overrides.cookie self.cookie;
  auth = or_else overrides.auth self.auth;
  user_agent = or_else overrides.user_agent self.user_agent;
}

unfoldable pub is_empty_options : HttpRequestOptions → Bool
is_empty_options self =
    is_empty self.headers
    && not (is_some self.cookie)
    && not (is_some self.auth)
    && not (is_some self.user_agent)
