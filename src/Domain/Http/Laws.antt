-- ===== src/Domain/Http/Laws.antt =====
-- When src/domain/http.rs takes a resource for unchanged, and how request options combine.
use paradown.Prelude.{
  String, true, false, ◌≡◌, ◌↔◌, Option, some, none, eq_iff, arith, is_some, or_else, append_assoc,
}
use paradown.Domain.Http.{
  HttpResourceIdentity, resume_validator, has_resume_validator, validator_changed,
  last_modified_changed, entity_tag_changed, matching_validator, HttpRequestOptions, merged,
}

validator_iff :
    (tag tag' date date' : Option String)
    → is_some (or_else tag date) ≡ true
    → (entity_tag_changed tag tag' (last_modified_changed date date') ≡ false)
      ↔ ((elim tag [ some t ↦ tag' | none ↦ date' ]) ≡ or_else tag date)
unfolding entity_tag_changed last_modified_changed
validator_iff (some a) (some b) date date' h =
    (λ e. ground (arith, eq_iff a b), λ e. ground (arith, eq_iff a b))
validator_iff (some a) none date date' h = (λ e. cc, λ e. cc)
validator_iff none tag' (some a) (some b) h =
    (λ e. ground (arith, eq_iff a b), λ e. ground (arith, eq_iff a b))
validator_iff none tag' (some a) none h = (λ e. cc, λ e. cc)
validator_iff none tag' none date' h = cc

-- With a stored validator, the resource counts as unchanged exactly when the fresh identity still
-- shows that validator in its place.
pub validator_changed_iff :
    (current fresh : HttpResourceIdentity)
    → has_resume_validator current ≡ true
    → (validator_changed current fresh ≡ false)
      ↔ (matching_validator current fresh ≡ resume_validator current)
unfolding validator_changed has_resume_validator
validator_changed_iff current fresh h =
    validator_iff current.entity_tag fresh.entity_tag current.last_modified fresh.last_modified h

-- Merging options is associative: later overrides win, headers add up in order.
pub merged_assoc : (a b c : HttpRequestOptions) → merged (merged a b) c ≡ merged a (merged b c)
unfolding merged
merged_assoc a b c = ground (arith, append_assoc a.headers b.headers c.headers)
