-- ===== src/Gateway/Described.antt =====
-- The unsigned description of a task in main.py, from the signature to the prompt.
use genesis_agents.Base.{
  ◌≡◌, refl, sym, ◌∙◌, String, true, false, some, List, ◌==◌, arith, eq_iff, Bool-cases, inl, inr,
  if◌then◌else◌,
}
use genesis_agents.Base.Json.{Json, Fields, text, object, end, field}
use genesis_agents.Base.Result.{ok, raise}
use genesis_agents.Text.{truthy}
use genesis_agents.Auth.Envelope.{AuthError, Wire, Nonce}
use genesis_agents.Gateway.Http.{Python, get, has, put, pop, as_dict, truth, or_dict}
use genesis_agents.Gateway.Identity.{
  Headers, Config, envelope_of, unsigned_runtime, bind_params, assert_envelope_binds_request,
  verify_agent_principal,
}
use genesis_agents.Gateway.Bodies.{get_field-put, get-put_ne, same_identity}
use genesis_agents.Gateway.Context.{task_text, coerce_prompt_field}

pop-put : (k : String) (v : Json) (fs : Fields) → pop k (put k v fs) ≡ pop k fs
unfolding pop put
pop-put k v end = ground (arith, eq_iff k k)
pop-put k v (field j w fs) = ground (arith, eq_iff j k, eq_iff k k, pop-put k v fs)

module _ (py : Python) where
  truth-put : (k : String) (v : Json) (fs : Fields) → truth py (object (put k v fs)) ≡ true
  unfolding truth put
  truth-put k v end = refl
  truth-put k v (field j w fs) = elim (Bool-cases (j == k)) [ inl e ↦ rw e | inr e ↦ rw e ]

  or_dict-object : (fs : Fields) → as_dict (or_dict py (object fs)) ≡ some fs
  unfolding or_dict truth
  or_dict-object end = refl
  or_dict-object (field k v fs) = refl

  bind_params-dicts :
      (task params : Json) (fs signed : Fields)
      → as_dict task ≡ some fs
      → as_dict params ≡ some signed
      → bind_params py task params ≡ (
          if py.same (unsigned_runtime fs signed) signed
          then ok tt
          else raise AuthError.ap2_params_mismatch)
  unfolding bind_params
  bind_params-dicts task params fs signed t p = ground arith

  unsigned_runtime-put :
      (v : Json) (fs signed : Fields)
      → has "description" signed ≡ false
      → unsigned_runtime (put "description" v fs) signed ≡ unsigned_runtime fs signed
  unfolding unsigned_runtime
  unsigned_runtime-put v fs signed h = rw (h, pop-put "description" v fs)

  bind_params-description :
      (v params : Json) (fs signed : Fields)
      → as_dict params ≡ some signed
      → has "description" signed ≡ false
      → bind_params py (or_dict py (object (put "description" v fs))) params
        ≡ bind_params py (or_dict py (object fs)) params
  bind_params-description v params fs signed s h =
      bind_params-dicts _ params (put "description" v fs) signed
        (or_dict-object (put "description" v fs)) s
      ∙ rw (unsigned_runtime-put v fs signed h)
          (sym (bind_params-dicts _ params fs signed (or_dict-object fs) s))

  -- A body with its task's description replaced.
  abbrev pub described : String → Fields → Fields → Fields
  described x fs body = put "task" (object (put "description" (text x) fs)) body

  envelope_of-described :
      (x : String) (fs body : Fields) → envelope_of py (described x fs body) ≡ envelope_of py body
  unfolding envelope_of
  envelope_of-described x fs body =
      let v = object (put "description" (text x) fs) in
      rw (
        get-put_ne "task" "version" v body refl,
        get-put_ne "task" "payload" v body refl,
        get-put_ne "task" "nonce" v body refl,
        get-put_ne "task" "timestamp" v body refl,
        get-put_ne "task" "pubkey" v body refl,
        get-put_ne "task" "signature" v body refl,
      )

  binds-described :
      (x slug : String) (fs body payload signed : Fields)
      → as_dict (or_dict py (get "payload" body)) ≡ some payload
      → as_dict (or_dict py (get "params" payload)) ≡ some signed
      → has "description" signed ≡ false
      → get "task" body ≡ object fs
      → assert_envelope_binds_request py (described x fs body) slug
        ≡ assert_envelope_binds_request py body slug
  unfolding assert_envelope_binds_request
  binds-described x slug fs body payload signed p s h t =
      let v = object (put "description" (text x) fs) in
      let task : get "task" (described x fs body) ≡ v = rw (get_field-put "task" "task" v body) in
      ground (
        arith,
        get-put_ne "task" "payload" v body refl,
        get-put_ne "task" "prompt" v body refl,
        bind_params-description (text x) (or_dict py (get "params" payload)) fs signed s h,
      )

  told :
      (x : String) (fs body : Fields)
      → truthy x ≡ true
      → task_text py (get "task" (described x fs body)) ≡ py.library.strip x
  unfolding task_text truth coerce_prompt_field
  told x fs body r =
      let v = object (put "description" (text x) fs) in
      rw (
        get_field-put "task" "task" v body,
        get_field-put "description" "description" (text x) fs,
        r,
      )

  -- Whoever may change a request to /agents/{slug}/run on its way can choose what the agent is told:
  -- if the signed parameters have no description, the body's task can get any text as its
  -- description, the gateway answers with the same principal or the same refusal and spends the same
  -- nonces, and that text, not the signed task, is what the prompt takes as the task.
  pub description_unsigned :
      (wire : Wire Fields) (cfg : Config) (h : Headers) (x slug : String)
      (fs body payload signed : Fields) (nonces : List Nonce)
      → as_dict (or_dict py (get "payload" body)) ≡ some payload
      → as_dict (or_dict py (get "params" payload)) ≡ some signed
      → has "description" signed ≡ false
      → get "task" body ≡ object fs
      → truthy x ≡ true
      → (verify_agent_principal py wire cfg h (described x fs body) slug nonces
          ≡ verify_agent_principal py wire cfg h body slug nonces)
        × (task_text py (get "task" (described x fs body)) ≡ py.library.strip x)
  description_unsigned wire cfg h x slug fs body payload signed nonces p s d t r = (
    same_identity py (described x fs body) body slug (envelope_of-described x fs body)
        (binds-described x slug fs body payload signed p s d t) wire cfg h nonces,
    told x fs body r,
  )
