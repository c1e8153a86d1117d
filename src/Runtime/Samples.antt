-- ===== src/Runtime/Samples.antt =====
-- Jobs, calls and scripts for the tests of the model of agent_runtime.py.
use genesis_agents.Base.{
  ℕ, zero, suc, String, true, false, Option, none, some, List, [], ◌∷◌, contains,
}
use genesis_agents.Base.Json.{Json, object, end, bool}
use genesis_agents.Base.Result.{ok}
use genesis_agents.Envelope.Answers.{fields}
use genesis_agents.Grants.Token.{Codec, usable, postgres}
use genesis_agents.Runtime.State.{Job, Call}
use genesis_agents.Runtime.Loop.{Turn}

-- A codec of one payload.
abbrev pub toy : Codec Json
toy = record {
  encode = λ c. "p";
  decode = λ s. some (record {
    v = some 1;
    aud = some "genesis-tool-dispatch";
    jti = some "j1";
    authorization_id = some "a1";
    sub = some "ann";
    tenant = some "acme";
    tool = some "github_tool";
    args_digest = some "d";
    iat = some 1000;
    exp = some 1060;
  });
  hmac = λ k e. "s";
  digest = λ tool args. "d";
}

abbrev pub job_of : String → List String → Job
job_of slug tools = record {
  slug = slug;
  job_id = "job-1";
  session_id = "s-1";
  tools_advertised = tools;
  registered = contains tools;
  delegated_allowed_risks = none;
  grant = "genesis-action-v1.p.s";
  principal_id = "ann";
  tenant_id = "acme";
  site = postgres;
  key = "0123456789abcdef0123456789abcdef";
}

-- A call that everything outside answers well.
abbrev pub call : String → Call
call name = record {
  id = "tc-1";
  name = name;
  arguments = some (object end);
  health = usable;
  now = 1010;
  request_id = "r-1";
  intent_ok = true;
  answer = ok (object (fields (("ok", bool true) ∷ [])));
  event_ok = true;
}

abbrev pub says : Option String → List Call → Turn
says content calls = record {
  timed_out = false;
  response = some (record {
    total_tokens = 700;
    choice = some (record { content = content; tool_calls = calls; elapsed = 250 });
  });
}

-- One message with calls, and then the answer.
abbrev pub script : List Call → ℕ → Turn
script calls zero = says none calls
script calls (suc n) = says (some "done") []

abbrev pub loads : String → Option Json
loads s = none

abbrev pub mailer : Job
mailer = job_of "genesis-e4l-ar" ("send_email" ∷ [])

abbrev pub formatter : Job
formatter = job_of "genesis-e4l-ar" ("code_format" ∷ [])

abbrev pub deployer : Job
deployer = job_of "genesis-deploy" ("github_tool" ∷ [])

-- A domain agent, whose policy denies it the deployment class.
abbrev pub namer : Job
namer = job_of "genesis-domain" ("domain_configure_dns" ∷ [])
