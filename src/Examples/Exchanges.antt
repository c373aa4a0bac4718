-- ===== src/Examples/Exchanges.antt =====
-- One exchange: a planner, who acts for a user, delegates to a worker.
use agent_oauth_from_scratch.Shared.{
  ℕ, ◌≤◌, ◌≡◌, refl, ◌⊎◌, String, true, Option, none, some, List, [], ◌∷◌, arith,
}
use agent_oauth_from_scratch.Shared.Lists.{contains, length}
use agent_oauth_from_scratch.Shared.Words.{join}
use agent_oauth_from_scratch.Outcome.{ok}
use agent_oauth_from_scratch.Value.{pos, str, instant, Fields, get, size_fields}
use agent_oauth_from_scratch.Value.Times.{to_timestamp}
use agent_oauth_from_scratch.Forms
use agent_oauth_from_scratch.Scopes.{parse_scope}
use agent_oauth_from_scratch.Delegation.{
  depth, chain, declared_depth, task_of, tenant_of, nest, may_act_permits,
}
use agent_oauth_from_scratch.Grants.Exchange.{
  derive, check_may_act, agreed_tenant, next_depth, requested_or_all,
}
use agent_oauth_from_scratch.Grants.Exchange.Steps.{IsTokenOf, IsAtMost}
use agent_oauth_from_scratch.Grants.Exchange.Rules.{
  exchange_scope, exchange_chain, exchange_expiry, exchange_origin, exchange_ignores_status,
}
use agent_oauth_from_scratch.Models.{active, suspended}
use agent_oauth_from_scratch.Pipeline.{issue, check_identity_is_usable, issued_claims, record_token}
use agent_oauth_from_scratch.Pipeline.Claims.{text_or_null}
use agent_oauth_from_scratch.Scopes.{attenuate}
use agent_oauth_from_scratch.Storage.{no_rows, record_issuance}
use agent_oauth_from_scratch.Tokens.{mint}
use agent_oauth_from_scratch.Value.Times.{from_timestamp, later}
use agent_oauth_from_scratch.Value.{item, put, update, has}
use agent_oauth_from_scratch.Examples.Data.{
  platform, settings, key, draws, form, subject_claims, actor_claims, worker, caller, result,
  issued,
}

derived :
    derive platform (pos 4) form caller "https://api.example" subject_claims actor_claims worker
    ≡ ok result
unfolding derive check_may_act agreed_tenant next_depth may_act_permits declared_depth chain nest
    task_of tenant_of parse_scope get item put size_fields from_timestamp Forms.get depth
derived = refl

done : (issue platform settings key draws result no_rows).0 ≡ ok issued
unfolding issue check_identity_is_usable issued_claims record_token attenuate record_issuance mint
    get item put update has later join
done = refl

exchange_scope_example :
    (contains ("read" ∷ "write" ∷ []) "read" ≡ true)
    × (contains worker.allowed_scopes "read" ≡ true)
    × (contains
          (requested_or_all (parse_scope (Forms.get form "scope")) ("read" ∷ "write" ∷ []))
          "read"
        ≡ true)
unfolding parse_scope get
exchange_scope_example =
    exchange_scope platform settings key (pos 4) form caller "https://api.example" subject_claims
      actor_claims worker result derived draws no_rows issued done ("read" ∷ "write" ∷ []) refl
      "read" refl

exchange_chain_example :
    (claims : Fields) × (identities : List String) × IsTokenOf platform key issued.access_token
      claims
    × (chain size_fields subject_claims ≡ ok identities)
    × (chain size_fields claims ≡ ok ("worker" ∷ identities))
    × (declared_depth size_fields claims ≡ ok (length identities))
    × (length identities ≤ 4)
unfolding get
exchange_chain_example =
    exchange_chain platform settings key (pos 4) form caller "https://api.example" subject_claims
      actor_claims worker result derived draws no_rows issued done (λ a b same. same) 4 refl
      (omega arith) "worker" refl (λ h. absurd (cc h))

exchange_expiry_example :
    (claims : Fields) × (expires_at : ℕ) × IsTokenOf platform key issued.access_token claims
    × (get claims "exp" ≡ instant expires_at)
    × IsAtMost (to_timestamp expires_at) 1900000100
unfolding get
exchange_expiry_example =
    exchange_expiry platform settings key (pos 4) form caller "https://api.example" subject_claims
      actor_claims worker result derived draws no_rows issued done 1900000100 refl

exchange_origin_example :
    (claims : Fields) × (task : Option String) × (subject_tenant : Option String) × IsTokenOf
      platform key issued.access_token claims
    × (task_of subject_claims ≡ ok task)
    × (get claims "task_id" ≡ text_or_null task)
    × (tenant_of subject_claims ≡ ok subject_tenant)
    × (get claims "tenant" ≡ str "acme")
    × ((subject_tenant ≡ none) ⊎ (subject_tenant ≡ some "acme"))
exchange_origin_example =
    exchange_origin platform settings key (pos 4) form caller "https://api.example" subject_claims
      actor_claims worker result derived draws no_rows issued done

exchange_ignores_status_example :
    (derive platform (pos 4) form caller "https://api.example" subject_claims actor_claims worker
      ≡ ok result)
    × (result.principal_status ≡ active)
unfolding derive agreed_tenant
exchange_ignores_status_example =
    exchange_ignores_status platform (pos 4) form caller "https://api.example" subject_claims
      actor_claims worker result suspended suspended derived
