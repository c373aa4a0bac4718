-- ===== src/Delegation.antt =====
-- services/delegation.py: reading and building the `act` chain, and the other claims that travel
-- with a delegation.
pub mod Chain
pub mod Derivation
pub mod Labels
pub mod Permits
pub mod Totality
use agent_oauth_from_scratch.Shared.{
  ℕ, zero, suc, ◌+◌, ◌-◌, String, Bool, true, false, Option, none, some, List, [], ◌∷◌, ◌++◌, ◌==◌,
  ◌<>◌, ltb, eqb, if◌then◌else◌,
}
use agent_oauth_from_scratch.Shared.Lists.{length, any}
use agent_oauth_from_scratch.Outcome.{Outcome, ok, raised, uncaught, ◌>>=◌, ◌>>◌, guard, refuse}
use agent_oauth_from_scratch.Value.{
  Value, null, bool, int, float, str, arr, obj, instant, Items, nil, cons, Fields, end, field, get,
  put, pos, negsuc,
}

abbrev pub maximum_chain_depth : ℕ
maximum_chain_depth = 32

abbrev pub act_claim : String
act_claim = "act"

abbrev pub task_claim : String
task_claim = "task_id"

abbrev pub may_act_claim : String
may_act_claim = "may_act"

abbrev pub depth_claim : String
depth_claim = "delegation_depth"

abbrev pub tenant_claim : String
tenant_claim = "tenant"

-- `raise MalformedChainError(description)`
abbrev pub malformed {ℓ} : {A : Type ℓ} → String → Outcome A
malformed description = refuse "invalid_grant" description 400

-- `if not isinstance(value, str) or not value: raise MalformedChainError(description)`
abbrev pub non_empty_str : Value → String → Outcome String
non_empty_str (str s) description = if s == "" then malformed description else ok s
non_empty_str _ description = malformed description

-- `chain(claims)[-1]` and `chain(claims)[0]`
abbrev pub last_of : List String → Outcome String
last_of [] = raised uncaught
last_of (x ∷ []) = ok x
last_of (x ∷ y ∷ xs) = last_of (y ∷ xs)

abbrev pub first_of_list : List String → Outcome String
first_of_list [] = raised uncaught
first_of_list (x ∷ xs) = ok x

abbrev pub acting_for : List String → String
acting_for [] = ""
acting_for (w ∷ []) = w
acting_for (w ∷ v ∷ ws) = w <> " acting for " <> acting_for (v ∷ ws)

-- Python's `id` of a dictionary is a parameter.
module _ (object_id : Fields → ℕ) where
  -- The loop of `chain`, on fuel: with the rounds left, `seen`, `identities` and `node`.
  unfoldable pub walk : ℕ → List ℕ → List String → Value → Outcome (List String)
  walk zero seen identities node = raised uncaught
  walk (suc fuel) seen identities null = ok identities
  walk (suc fuel) seen identities (obj node) =
      let deeper =
        λ (found : List String). walk fuel (object_id node ∷ seen) found (get node act_claim) in
      if any (eqb (object_id node)) seen then malformed "act chain refers to itself" else do
        actor ← non_empty_str (get node "sub") "an act entry has no subject"
        let found = identities ++ actor ∷ []
        if ltb maximum_chain_depth (length found)
            then malformed "act chain is too deep to read"
            else deeper found
  walk (suc fuel) seen identities _ = malformed "act must be an object"

  unfoldable pub chain : Fields → Outcome (List String)
  unfolding walk
  chain claims = do
    subject ← non_empty_str (get claims "sub") "token has no subject"
    walk (suc maximum_chain_depth) (object_id claims ∷ []) (subject ∷ []) (get claims act_claim)

  unfoldable pub root : Fields → Outcome String
  root claims = do identities ← chain claims; last_of identities

  unfoldable pub holder : Fields → Outcome String
  holder claims = do identities ← chain claims; first_of_list identities

  unfoldable pub depth : Fields → Outcome ℕ
  depth claims = do identities ← chain claims; ok (length identities - 1)

  unfoldable pub describe : Fields → Outcome String
  describe claims = do identities ← chain claims; ok (acting_for identities)

  agrees : ℕ → Fields → Outcome ℕ
  agrees declared claims = do
    hops ← depth claims
    if eqb declared hops
        then ok declared
        else malformed "delegation depth disagrees with the act chain"

  -- a boolean is an `int` to Python, and is refused by name
  declared_as : Value → Fields → Outcome ℕ
  declared_as (int (pos declared)) claims = agrees declared claims
  declared_as _ claims = malformed "token does not declare a delegation depth"

  unfoldable pub declared_depth : Fields → Outcome ℕ
  unfolding agrees declared_as
  declared_depth claims = declared_as (get claims depth_claim) claims

nest_under : Value → Fields → Outcome Fields
nest_under null new_act = ok new_act
nest_under (obj existing) new_act = ok (put new_act act_claim (obj existing))
nest_under _ new_act = malformed "act must be an object"

unfoldable pub nest : Fields → Outcome Fields
unfolding nest_under
nest subject_claims = do
  subject ← non_empty_str (get subject_claims "sub") "subject token has no subject"
  nest_under (get subject_claims act_claim) (field "sub" (str subject) end)

-- `value == text`, for a decoded value
abbrev pub is_text : Value → String → Bool
is_text (str s) text = s == text
is_text _ text = false

-- `isinstance(entry, dict) and entry.get("sub") == actor_subject`
abbrev names_actor : Value → String → Bool
names_actor (obj entry) actor_subject = is_text (get entry "sub") actor_subject
names_actor _ actor_subject = false

any_names_actor : Items → String → Bool
any_names_actor nil actor_subject = false
any_names_actor (cons entry entries) actor_subject =
    if names_actor entry actor_subject then true else any_names_actor entries actor_subject

permits : Value → String → Outcome Bool
unfolding any_names_actor
permits null actor_subject = ok true
permits (obj may_act) actor_subject = ok (is_text (get may_act "sub") actor_subject)
permits (arr entries) actor_subject = ok (any_names_actor entries actor_subject)
permits _ actor_subject = malformed "may_act must be an object or a list of objects"

unfoldable pub may_act_permits : Fields → String → Outcome Bool
unfolding permits
may_act_permits subject_claims actor_subject =
    permits (get subject_claims may_act_claim) actor_subject

optional_str : Value → String → Outcome (Option String)
optional_str null description = ok none
optional_str value description = do text ← non_empty_str value description; ok (some text)

unfoldable pub task_of : Fields → Outcome (Option String)
unfolding optional_str
task_of subject_claims =
    optional_str (get subject_claims task_claim) "task_id must be a non-empty string"

unfoldable pub tenant_of : Fields → Outcome (Option String)
unfolding optional_str
tenant_of claims = optional_str (get claims tenant_claim) "tenant must be a non-empty string"
