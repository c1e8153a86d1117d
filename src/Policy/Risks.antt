-- ===== src/Policy/Risks.antt =====
-- TOOL_RISK_BY_NAME of runtime/tool_policy.py: the risk class of each registered tool.
use genesis_agents.Base.{String, List, [], ◌∷◌}
use genesis_agents.Policy.Tables.{
  risk_read_only, risk_filesystem_write, risk_network, risk_browser, risk_shell, risk_subagent,
  risk_deployment, risk_payment,
}

unfoldable pub tool_risk_by_name : List (String × String)
tool_risk_by_name =
    ("file_write", risk_filesystem_write)
    ∷ ("code_format", risk_read_only)
    ∷ ("genesis_call", risk_subagent)
    ∷ ("conduit", risk_browser)
    ∷ ("workspace_shell", risk_shell)
    ∷ ("web_search", risk_network)
    ∷ ("web_fetch", risk_network)
    ∷ ("xero_scoped_invoke", risk_network)
    ∷ ("financeos_invoice_proof", risk_network)
    ∷ ("financeos_verify_api", risk_network)
    ∷ ("financeos_get_invoice_proof", risk_network)
    ∷ ("financeos_get_verify_api", risk_network)
    ∷ ("finance_sync_bank_fees", risk_payment)
    ∷ ("finance_import_x402_transactions", risk_payment)
    ∷ ("finance_generate_finance_report", risk_read_only)
    ∷ ("finance_get_budget_metrics", risk_read_only)
    ∷ ("finance_get_audit_log", risk_read_only)
    ∷ ("finance_get_alerts", risk_read_only)
    ∷ ("billing_import_ar_ledger", risk_payment)
    ∷ ("billing_deploy_plan_change", risk_payment)
    ∷ ("billing_generate_revops_report", risk_read_only)
    ∷ ("billing_get_budget_metrics", risk_read_only)
    ∷ ("billing_get_audit_log", risk_read_only)
    ∷ ("billing_get_alerts", risk_read_only)
    ∷ ("commerce_configure_tax_engine", risk_payment)
    ∷ ("commerce_get_budget_metrics", risk_read_only)
    ∷ ("commerce_get_audit_log", risk_read_only)
    ∷ ("commerce_get_alerts", risk_read_only)
    ∷ ("pricing_run_elasticity_experiment", risk_payment)
    ∷ ("pricing_deploy_pricing_update", risk_payment)
    ∷ ("pricing_get_budget_metrics", risk_read_only)
    ∷ ("pricing_get_audit_log", risk_read_only)
    ∷ ("pricing_get_alerts", risk_read_only)
    ∷ ("domain_check_availability", risk_read_only)
    ∷ ("domain_get_cost_summary", risk_read_only)
    ∷ ("domain_generate_candidates", risk_read_only)
    ∷ ("domain_configure_dns", risk_deployment)
    ∷ ("workflow_zapier_export", risk_filesystem_write)
    ∷ ("workflow_n8n_export", risk_filesystem_write)
    ∷ ("workflow_make_export", risk_filesystem_write)
    ∷ ("workflow_webhook_trigger", risk_network)
    ∷ ("data_s3_signed_url", risk_payment)
    ∷ ("data_bigquery_query", risk_read_only)
    ∷ ("data_dbt_compile", risk_filesystem_write)
    ∷ ("data_pipeline_design", risk_filesystem_write)
    ∷ ("data_quality_check", risk_read_only)
    ∷ ("data_get_editor_context", risk_read_only)
    ∷ ("data_get_gcp_connection", risk_read_only)
    ∷ ("data_list_resource_templates", risk_read_only)
    ∷ ("data_read_resource", risk_read_only)
    ∷ ("github_tool", risk_deployment)
    ∷ ("run_code", risk_shell)
    ∷ ("send_email", risk_network)
    ∷ ("screenshot_url", risk_network)
    ∷ ("vision_analyze", risk_network)
    ∷ ("vision_ocr", risk_network)
    ∷ ("vision_compare", risk_network)
    ∷ ("hr_bamboohr_query", risk_network)
    ∷ ("hr_greenhouse_query", risk_network)
    ∷ ("hr_lever_query", risk_network)
    ∷ ("hr_template_generate", risk_filesystem_write)
    ∷ []
