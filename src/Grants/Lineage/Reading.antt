-- ===== src/Grants/Lineage/Reading.antt =====
-- The claims that an exchange takes from a verified token are those that were signed for it.
use agent_oauth_from_scratch.Shared.{
  ℕ, ◌≡◌, refl, ap, ◌∙◌, String, Option, none, some, List, ◌==◌, if◌then◌else◌, Bool-cases, inl,
  inr, eq_iff,
}
use agent_oauth_from_scratch.Outcome.{ok}
use agent_oauth_from_scratch.Value.{Value, null, str, instant, Fields, get}
use agent_oauth_from_scratch.Value.Wire.{as_read, IsReadBack, as_read-eq-str, as_read-eq-null}
use agent_oauth_from_scratch.Scopes.{parse_scope}
use agent_oauth_from_scratch.Delegation.{
  act_claim, depth_claim, task_claim, tenant_claim, chain, declared_depth, task_of, tenant_of,
}
use agent_oauth_from_scratch.Delegation.Labels.{IsOptional, task_of-eq-ok, tenant_of-eq-ok}
use agent_oauth_from_scratch.Delegation.Chain.{Acts, IsObjectId, chain_sound, chain_iff}
use agent_oauth_from_scratch.Delegation.Derivation.{declared_depth_iff}
use agent_oauth_from_scratch.Grants.Exchange.{parse_scope_claim}
use agent_oauth_from_scratch.Pipeline.Claims.{text_or_null}

Acts-as_read : (v : Value) (rest : List String) → Acts v rest → as_read v ≡ v
Acts-as_read _ _ Acts.done = refl
Acts-as_read _ _ (Acts.hop named ne deeper) = refl

parse_scope_claim-text :
    (v : Value) (scopes : List String)
    → parse_scope_claim (as_read v) ≡ ok scopes
    → parse_scope_claim v ≡ ok scopes
parse_scope_claim-text (instant t) scopes h = absurd (cc h)
parse_scope_claim-text null scopes h = h
parse_scope_claim-text (str s) scopes h = h
parse_scope_claim-text _ scopes h = absurd (cc h)

-- a granted scope, as it is written into a token, is read as its words
pub parse_scope_claim-written :
    (granted : String)
    → parse_scope_claim (if granted == "" then null else str granted)
      ≡ ok (parse_scope (some granted))
unfolding parse_scope
parse_scope_claim-written granted = elim (Bool-cases (granted == "")) [
  | inl empty ↦ rw (empty, (eq_iff granted "").0 empty)
  | inr other ↦ rw other
]

text_as_read : (v : Value) (o : Option String) → IsOptional (as_read v) o → v ≡ text_or_null o
text_as_read v none h = as_read-eq-null v h
text_as_read v (some s) h = as_read-eq-str v s h

module _ (read signed : Fields) (back : IsReadBack read signed) where
  pub task_of-read :
      (o : Option String) → task_of read ≡ ok o → get signed task_claim ≡ text_or_null o
  task_of-read o h =
      text_as_read (get signed task_claim) o (rw (back task_claim) at (task_of-eq-ok read o h))

  pub tenant_of-read :
      (o : Option String) → tenant_of read ≡ ok o → get signed tenant_claim ≡ text_or_null o
  tenant_of-read o h =
      text_as_read (get signed tenant_claim) o
        (rw (back tenant_claim) at (tenant_of-eq-ok read o h))

  pub scope-read :
      (scopes : List String)
      → parse_scope_claim (get read "scope") ≡ ok scopes
      → parse_scope_claim (get signed "scope") ≡ ok scopes
  scope-read scopes h = parse_scope_claim-text (get signed "scope") scopes (rw (back "scope") at h)

  pub sub-read : (s : String) → get signed "sub" ≡ str s → get read "sub" ≡ str s
  sub-read s h = back "sub" ∙ ap as_read h

  module _ (object_id : Fields → ℕ) (law : IsObjectId object_id) where
    pub chain-read :
        (identities : List String)
        → chain object_id signed ≡ ok identities
        → chain object_id read ≡ ok identities
    chain-read identities h =
        let (subject, rest, e, named, ne, acts, short) =
          chain_sound object_id signed identities h in
        rw e (
          (chain_iff object_id law read subject rest).1 (
            sub-read subject named,
            ne,
            rw (back act_claim ∙ Acts-as_read (get signed act_claim) rest acts) acts,
            short,
          ))

    pub declared_depth-read :
        (n : ℕ) → declared_depth object_id signed ≡ ok n → declared_depth object_id read ≡ ok n
    declared_depth-read n h =
        let (identities, said, chained, count) = (declared_depth_iff object_id law signed n).0 h in
        (declared_depth_iff object_id law read n).1
          (identities, back depth_claim ∙ ap as_read said, chain-read identities chained, count)
