-- ===== src/Policy/Tests.antt =====
-- The policy at concrete slugs and tools.
use genesis_agents.Base.{◌≡◌, refl, String, false, List, [], ◌∷◌, contains, lookup, inl}
use genesis_agents.Policy.Tables.{prohibition_groups}
use genesis_agents.Policy.Risks.{tool_risk_by_name}
use genesis_agents.Policy.Check.{
  prohibition_manifest_names, prohibited_names, prohibited_tools, get_tool_risk_by_name,
  is_tool_allowed, check_tool_policy,
}
use genesis_agents.Policy.Laws.{unreachable_risks}

unreachable_risks_example :
    ((check_tool_policy "genesis-finance" "finance_sync_bank_fees").ok ≡ false)
    × (is_tool_allowed "genesis-finance" "finance_sync_bank_fees" ≡ false)
unfolding get_tool_risk_by_name prohibited_tools tool_risk_by_name contains lookup
unreachable_risks_example = unreachable_risks "genesis-finance" "finance_sync_bank_fees" (inl refl)

-- A stand-in for the serialisation and the hash.
abbrev first_name : List String → String
first_name [] = ""
first_name (x ∷ xs) = x

-- The manifest begins with the first name in the order of texts.
manifest_sorted : first_name prohibition_manifest_names ≡ "billing_run_billing_cycle"
unfolding prohibition_manifest_names prohibited_names prohibition_groups
manifest_sorted = refl
