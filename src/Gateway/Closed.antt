-- ===== src/Gateway/Closed.antt =====
-- The escrow that run_agent of main.py opens for a synchronous run.
use genesis_agents.Base.{
  ℕ, ◌≡◌, ◌⊎◌, inl, inr, ap, ◌∙◌, String, true, false, not, ◌&&◌, Option, none, List, [], ◌∷◌, ◌++◌,
  arith, Bool-cases, Option-cases, if◌then◌else◌,
}
use mathlib.Core.List.{append_assoc, append-nil}
use genesis_agents.Base.Json.{Json, Fields}
use genesis_agents.Base.Result.{ok, raise, Result-cases}
use genesis_agents.Text.{truthy?, or_empty}
use genesis_agents.Auth.Envelope.{Principal}
use genesis_agents.Gateway.Http.{HttpError, http, Python, get, truth}
use genesis_agents.Gateway.Context.{scoped_runtime_params}
use genesis_agents.Gateway.Run.{
  RunRequest, Bundle, Money, initiated, settled, refunded, World, Outside, spend, crash,
  skips_escrow, whole, answer_persona,
}
use genesis_agents.Gateway.Execute.{
  Reserve, reserved, refused, reserve, release, close_escrow, finish_run, run_sync,
}
use genesis_agents.Gateway.Escrows.{answer_persona-world, finish_run-world, finish_run-none}

module _ (py : Python) (o : Outside) where
  -- What closes an escrow of the gateway's own: one settlement if the agent returned with ok, one
  -- refund if it returned without or raised.
  unfoldable pub closing : Option String → List Money
  unfolding truth
  closing escrow =
      if truthy? escrow
      then elim o.executed [
        | raise e ↦ refunded (or_empty escrow) ∷ []
        | ok result ↦
            (if truth py (get "ok" result)
              then settled (or_empty escrow)
              else refunded (or_empty escrow))
            ∷ []
      ]
      else []

  -- An escrow that was opened.
  pub record IsOpened (body : RunRequest) (buyer : Json) (wallet : Option String) (w : World)
      (r : Reserve) : Type 0 where
    pub id : Option String
    pub cents : ℕ
    pub by_client : o.initiate ≡ ok id
    pub permitted : o.escrow_ok ≡ true
    pub not_external : truthy? body.escrow_id ≡ false
    pub made : r ≡ reserved id (spend (initiated buyer (or_empty wallet) cents) w)

  reserve-cases :
      (body : RunRequest) (price buyer : Json) (wallet : Option String) (w : World)
      → ((e : HttpError) × (reserve py o (skips_escrow body) price buyer wallet w ≡ refused e))
        ⊎ ((reserve py o (skips_escrow body) price buyer wallet w ≡ reserved none w)
            ⊎ IsOpened body buyer wallet w (reserve py o (skips_escrow body) price buyer wallet w))
  unfolding reserve
  reserve-cases body price buyer wallet w =
      elim (Bool-cases (
        o.escrow_ok
        && (not (skips_escrow body) && (truth py price && (truth py buyer && truthy? wallet))))) [
          | inr n ↦ inr (inl (rw n))
          | inl y ↦ elim (Option-cases (whole py price)) [
            | inl n ↦ inl (crash, rw (reserve, y, n))
            | inr (cents, c) ↦ elim (Result-cases o.initiate) [
              | inl (e, i) ↦ inl (http 402 "escrow_initiate_failed", rw (reserve, y, c, i))
              | inr (id, i) ↦ inr (
                  inr (record {
                    id = id;
                    cents = cents;
                    by_client = i;
                    permitted = ground arith;
                    not_external = ground arith;
                    made = rw (reserve, y, c, i);
                  }))
            ]
          ]
        ]

  close_escrow-money :
      (id : Option String) (result : Fields) (w : World)
      → o.escrow_ok ≡ true
      → o.executed ≡ ok result
      → (close_escrow py o id result w).money ≡ w.money ++ closing id
  unfolding close_escrow closing
  close_escrow-money id result w permitted e = elim (Bool-cases (truthy? id)) [
    | inr n ↦ rw (close_escrow, closing, n, append-nil)
    | inl y ↦ elim (Bool-cases (truth py (get "ok" result))) [
      | inl k ↦ rw (close_escrow, closing, y, permitted, e, k)
      | inr k ↦ rw (close_escrow, closing, y, permitted, e, k)
    ]
  ]

  release-money :
      (body : RunRequest) (id : Option String) (e : String) (w : World)
      → o.escrow_ok ≡ true
      → truthy? body.escrow_id ≡ false
      → o.executed ≡ raise e
      → (release py o body id w).money ≡ w.money ++ closing id
  unfolding release closing
  release-money body id e w permitted own x = elim (Bool-cases (truthy? id)) [
    | inr n ↦ rw (release, closing, n, append-nil)
    | inl y ↦ rw (release, closing, y, permitted, own, x)
  ]

  persona-money :
      (body : RunRequest) (id : Option String) (e : String) (w : World)
      → o.escrow_ok ≡ true
      → truthy? body.escrow_id ≡ false
      → o.executed ≡ raise e
      → (answer_persona py o (release py o body id w)).1.money ≡ w.money ++ closing id
  persona-money body id e w permitted own x =
      ap (λ v. v.money) (answer_persona-world py o (release py o body id w))
      ∙ release-money body id e w permitted own x

  finish_run-money :
      (id : Option String) (result : Fields) (w : World)
      → o.escrow_ok ≡ true
      → o.executed ≡ ok result
      → (finish_run py o id result w).1.money ≡ w.money ++ closing id
  finish_run-money id result w permitted x =
      ap (λ v. v.money) (finish_run-world py o id result w)
      ∙ close_escrow-money id result w permitted x

  run_sync-opened :
      (body : RunRequest) (p : Principal) (b : Bundle) (w : World) (params : Fields)
      → o.runtime_ready ≡ true
      → scoped_runtime_params py body.task p ≡ ok params
      → (op : IsOpened body (get "buyer_wallet_id" params) b.wallet_id w (
          reserve py o
            (skips_escrow body)
            (get "price_tier_cents" params)
            (get "buyer_wallet_id" params)
            b.wallet_id
            w))
      → (run_sync py o body p b w).1.money
        ≡ w.money
          ++ (initiated (get "buyer_wallet_id" params) (or_empty b.wallet_id) op.cents
              ∷ closing op.id)
  unfolding run_sync
  run_sync-opened body p b w params y r op =
      let w' = spend (initiated (get "buyer_wallet_id" params) (or_empty b.wallet_id) op.cents) w in
      elim (Result-cases o.executed) [
        | inl (e, x) ↦
            let crashed : run_sync py o body p b w
                ≡ answer_persona py o (release py o body op.id w') =
              rw (run_sync, y, r, op.made, x) in
            ap (λ v. v.1.money) crashed
            ∙ persona-money body op.id e w' op.permitted op.not_external x
            ∙ append_assoc w.money _ (closing op.id)
        | inr (result, x) ↦
            let returned : run_sync py o body p b w ≡ finish_run py o op.id result w' =
              rw (run_sync, y, r, op.made, x) in
            ap (λ v. v.1.money) returned
            ∙ finish_run-money op.id result w' op.permitted x
            ∙ append_assoc w.money _ (closing op.id)
      ]

  -- A synchronous run opens at most one escrow, and the gateway closes it in the same request by
  -- exactly one call: a settlement if the agent returned a result with ok, and a refund if it returned
  -- another one or crashed. Where it opens none, it makes no such call. An escrow without an id is not
  -- closed.
  pub escrow_closed :
      (body : RunRequest) (p : Principal) (b : Bundle) (w : World)
      → ((run_sync py o body p b w).1.money ≡ w.money)
        ⊎ ((buyer : Json) × (wallet : String) × (cents : ℕ) × (id : Option String) × (o.initiate
              ≡ ok id)
            × ((run_sync py o body p b w).1.money
                ≡ w.money ++ (initiated buyer wallet cents ∷ closing id)))
  unfolding run_sync
  escrow_closed body p b w = elim (Bool-cases o.runtime_ready) [
    | inr n ↦ inl (rw (run_sync, n) (ap (λ v. v.money) (answer_persona-world py o w)))
    | inl y ↦ elim (Result-cases (scoped_runtime_params py body.task p)) [
      | inl (e, r) ↦ inl (rw (run_sync, y, r))
      | inr (params, r) ↦
          elim (reserve-cases body (get "price_tier_cents" params) (get "buyer_wallet_id" params)
            b.wallet_id w) [
              | inl (e, c) ↦ inl (rw (run_sync, y, r, c))
              | inr (inl c) ↦ inl (elim (Result-cases o.executed) [
                | inl (e, x) ↦
                    rw (run_sync, y, r, c, x) (ap (λ v. v.money) (answer_persona-world py o w))
                | inr (result, x) ↦
                    rw (run_sync, y, r, c, x) (ap (λ v. v.money) (finish_run-none py o result w))
              ])
              | inr (inr op) ↦ inr (
                get "buyer_wallet_id" params,
                or_empty b.wallet_id,
                op.cents,
                op.id,
                op.by_client,
                run_sync-opened body p b w params y r op,
              )
            ]
    ]
  ]
