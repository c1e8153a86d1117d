-- ===== src/Policy/Tables.antt =====
-- The tables of runtime/tool_policy.py: risk classes, what each agent slug may do, the prohibited
-- names and the risk of each registered tool. A set of texts is a list without repetition.
use genesis_agents.Base.{String, List, [], ◌∷◌}

abbrev pub risk_read_only : String
risk_read_only = "read_only"

abbrev pub risk_filesystem_write : String
risk_filesystem_write = "filesystem_write"

abbrev pub risk_network : String
risk_network = "network"

abbrev pub risk_browser : String
risk_browser = "browser"

abbrev pub risk_shell : String
risk_shell = "shell"

abbrev pub risk_subagent : String
risk_subagent = "subagent"

abbrev pub risk_deployment : String
risk_deployment = "deployment"

abbrev pub risk_payment : String
risk_payment = "payment"

abbrev pub risk_admin : String
risk_admin = "admin"

abbrev pub risk_prohibited : String
risk_prohibited = "prohibited"

unfoldable pub slug_allowed_risks : List (String × List String)
slug_allowed_risks =
    ("genesis-ai-vision", risk_read_only ∷ risk_filesystem_write ∷ risk_network ∷ risk_browser ∷ [])
    ∷ ("genesis-analyst", risk_read_only ∷ risk_filesystem_write ∷ risk_network ∷ risk_browser ∷ [])
    ∷ ("genesis-billing", risk_read_only ∷ risk_filesystem_write ∷ risk_network ∷ risk_browser ∷ [])
    ∷ (
      "genesis-builder",
      risk_read_only ∷ risk_filesystem_write ∷ risk_shell ∷ risk_browser ∷ risk_deployment
          ∷ risk_network ∷ [],
    )
    ∷ (
      "genesis-commerce",
      risk_read_only ∷ risk_filesystem_write ∷ risk_network ∷ risk_browser ∷ [],
    )
    ∷ ("genesis-content", risk_read_only ∷ risk_filesystem_write ∷ risk_network ∷ risk_browser ∷ [])
    ∷ (
      "genesis-data-pipeline",
      risk_read_only ∷ risk_filesystem_write ∷ risk_shell ∷ risk_browser ∷ [],
    )
    ∷ (
      "genesis-deploy",
      risk_read_only ∷ risk_filesystem_write ∷ risk_shell ∷ risk_deployment ∷ risk_network
          ∷ risk_browser ∷ [],
    )
    ∷ ("genesis-domain", risk_read_only ∷ risk_browser ∷ [])
    ∷ ("genesis-e4l-ap", risk_read_only ∷ risk_filesystem_write ∷ risk_network ∷ [])
    ∷ ("genesis-e4l-ar", risk_read_only ∷ risk_filesystem_write ∷ risk_network ∷ [])
    ∷ ("genesis-e4l-cash", risk_read_only ∷ risk_filesystem_write ∷ risk_network ∷ [])
    ∷ ("genesis-e4l-close", risk_read_only ∷ risk_filesystem_write ∷ risk_network ∷ [])
    ∷ ("genesis-e4l-cogs-cm", risk_read_only ∷ risk_filesystem_write ∷ risk_network ∷ [])
    ∷ ("genesis-e4l-commissions", risk_read_only ∷ risk_filesystem_write ∷ risk_network ∷ [])
    ∷ ("genesis-e4l-controller", risk_read_only ∷ risk_filesystem_write ∷ risk_network ∷ [])
    ∷ ("genesis-e4l-fs-integrity", risk_read_only ∷ risk_filesystem_write ∷ risk_network ∷ [])
    ∷ ("genesis-e4l-intercompany", risk_read_only ∷ risk_filesystem_write ∷ risk_network ∷ [])
    ∷ ("genesis-e4l-journals", risk_read_only ∷ risk_filesystem_write ∷ risk_network ∷ [])
    ∷ ("genesis-e4l-revenue", risk_read_only ∷ risk_filesystem_write ∷ risk_network ∷ [])
    ∷ ("genesis-e4l-shopify", risk_read_only ∷ risk_filesystem_write ∷ risk_network ∷ [])
    ∷ ("genesis-e4l-stripe", risk_read_only ∷ risk_filesystem_write ∷ risk_network ∷ [])
    ∷ ("genesis-e4l-treasury", risk_read_only ∷ risk_filesystem_write ∷ risk_network ∷ [])
    ∷ ("genesis-email", risk_read_only ∷ risk_filesystem_write ∷ risk_network ∷ risk_browser ∷ [])
    ∷ ("genesis-finance", risk_read_only ∷ risk_filesystem_write ∷ risk_network ∷ [])
    ∷ ("genesis-hr", risk_read_only ∷ risk_filesystem_write ∷ risk_network ∷ risk_browser ∷ [])
    ∷ ("genesis-legal", risk_read_only ∷ risk_filesystem_write ∷ risk_network ∷ risk_browser ∷ [])
    ∷ ("genesis-maintenance", risk_read_only ∷ risk_browser ∷ [])
    ∷ (
      "genesis-marketing",
      risk_read_only ∷ risk_filesystem_write ∷ risk_network ∷ risk_browser ∷ [],
    )
    ∷ ("genesis-meta", risk_read_only ∷ risk_filesystem_write ∷ risk_subagent ∷ risk_browser ∷ [])
    ∷ ("genesis-onboarding", risk_read_only ∷ risk_browser ∷ [])
    ∷ ("genesis-pricing", risk_read_only ∷ risk_browser ∷ [])
    ∷ (
      "genesis-qa",
      risk_read_only ∷ risk_filesystem_write ∷ risk_shell ∷ risk_browser ∷ risk_network ∷ [],
    )
    ∷ (
      "genesis-research",
      risk_read_only ∷ risk_filesystem_write ∷ risk_network ∷ risk_browser ∷ [],
    )
    ∷ (
      "genesis-security",
      risk_read_only ∷ risk_filesystem_write ∷ risk_shell ∷ risk_network ∷ risk_browser ∷ [],
    )
    ∷ ("genesis-seo", risk_read_only ∷ risk_filesystem_write ∷ risk_network ∷ risk_browser ∷ [])
    ∷ ("genesis-support", risk_read_only ∷ risk_filesystem_write ∷ risk_network ∷ risk_browser ∷ [])
    ∷ (
      "genesis-workflow-automator",
      risk_read_only ∷ risk_filesystem_write ∷ risk_network ∷ risk_browser ∷ [],
    )
    ∷ []

abbrev pub default_allowed_risks : List String
default_allowed_risks = risk_read_only ∷ []

abbrev pub human_only_tools : List String
human_only_tools = "send_email" ∷ []

unfoldable pub prohibition_groups : List (String × String)
prohibition_groups =
    ("finance_run_payroll_batch", "A")
    ∷ ("finance_process_vendor_invoice", "A")
    ∷ ("finance_run_finance_close", "A")
    ∷ ("billing_run_dunning_batch", "A")
    ∷ ("billing_run_billing_cycle", "A")
    ∷ ("commerce_register_domain", "A")
    ∷ ("commerce_activate_payment_gateway", "A")
    ∷ ("commerce_ship_fulfillment_batch", "A")
    ∷ ("commerce_launch_commerce_stack", "A")
    ∷ ("pricing_purchase_dataset", "A")
    ∷ ("pricing_run_pricing_cycle", "A")
    ∷ ("domain_create_intent_mandate", "A")
    ∷ ("domain_register", "A")
    ∷ ("domain_select_and_register", "A")
    ∷ ("escrow_client.initiate_escrow", "A")
    ∷ ("escrow_client.complete_escrow", "A")
    ∷ ("escrow_client.release_escrow", "A")
    ∷ ("escrow_client.calculate_split", "B")
    ∷ ("pricing_generate_pricing_report", "C")
    ∷ ("workflow_webhook_trigger", "A")
    ∷ []

abbrev pub slug_scoped_only : List String
slug_scoped_only = "workflow_webhook_trigger" ∷ []

unfoldable pub prohibited_tools_by_slug : List (String × List String)
prohibited_tools_by_slug =
    ("genesis-finance", "workflow_webhook_trigger" ∷ [])
    ∷ ("genesis-billing", "workflow_webhook_trigger" ∷ [])
    ∷ ("genesis-commerce", "workflow_webhook_trigger" ∷ [])
    ∷ ("genesis-pricing", "workflow_webhook_trigger" ∷ [])
    ∷ []
