-- ===== src/Worker/Callback.antt =====
-- fire_callback of worker.py. What each attempt meets is an argument: an HTTP status, or none where
-- the request raises. The waits between attempts are left out.
use genesis_agents.Base.{
  ℕ, zero, suc, String, Bool, true, false, ◌&&◌, Option, none, some, List, [], ◌∷◌, leb, ltb,
  if◌then◌else◌,
}

pub record Payload : Type 0 where
  pub job_id : String
  pub status : String
  pub output : Option String
  pub error : Option String
  pub external_escrow_id : Option String

-- `200 <= resp.status_code < 300`
abbrev pub is_success : Option ℕ → Bool
is_success none = false
is_success (some code) = leb 200 code && ltb code 300

-- The attempts that are left, from one of them on: the posts that are made, and whether one of them
-- was answered well.
unfoldable pub attempts : (ℕ → Option ℕ) → Payload → ℕ → ℕ → List Payload × Bool
attempts responses p attempt zero = ([], false)
attempts responses p attempt (suc left) =
    let (posts, done) = attempts responses p (suc attempt) left in
    if is_success (responses attempt) then (p ∷ [], true) else (p ∷ posts, done)

-- From attempt 1 to CALLBACK_MAX_ATTEMPTS.
unfoldable pub fire_callback : ℕ → (ℕ → Option ℕ) → Payload → List Payload × Bool
fire_callback max_attempts responses p = attempts responses p 1 max_attempts
