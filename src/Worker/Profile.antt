-- ===== src/Worker/Profile.antt =====
-- The deployment profile of escrow_guard.py. `strip` and `lower` are Python's on ASCII texts. Whether
-- escrow_client can be imported is an argument.
use Prim.Native.Char.{Char, code}
use genesis_agents.Base.{
  String, Bool, true, false, ◌&&◌, ◌||◌, Option, none, [], ◌∷◌, ◌==◌, nat_eq, leb, if◌then◌else◌,
}
use genesis_agents.Base.Json.{Json, bool, text, object, field}
use genesis_agents.Base.Result.{Result, ok, raise}
use genesis_agents.Text.{or_empty}
use genesis_agents.Envelope.Answers.{EnvelopeError, prohibited_refusal, fields}

-- The ASCII characters that `strip` removes.
abbrev is_space : Char → Bool
is_space c = (leb 9 (code c) && leb (code c) 13) || (leb 28 (code c) && leb (code c) 32)

unfoldable pub lstrip : String → String
lstrip String.[] = String.[]
lstrip (String.◌∷◌ c s) = let rest = lstrip s in if is_space c then rest else String.◌∷◌ c s

abbrev join_space : Char → String → String
join_space c String.[] = if is_space c then String.[] else String.◌∷◌ c String.[]
join_space c (String.◌∷◌ d s) = String.◌∷◌ c (String.◌∷◌ d s)

unfoldable pub rstrip : String → String
rstrip String.[] = String.[]
rstrip (String.◌∷◌ c s) = join_space c (rstrip s)

-- The character at the place in the second text at which the first one has `c`.
abbrev at_place : String → String → Char → Char
at_place (String.◌∷◌ x xs) (String.◌∷◌ y ys) c =
    let rest = at_place xs ys c in if nat_eq (code c) (code x) then y else rest
at_place (String.◌∷◌ x xs) String.[] c = c
at_place String.[] ys c = c

unfoldable pub lower : String → String
lower String.[] = String.[]
lower (String.◌∷◌ c s) =
    String.◌∷◌ (at_place "ABCDEFGHIJKLMNOPQRSTUVWXYZ" "abcdefghijklmnopqrstuvwxyz" c) (lower s)

-- The value of GENESIS_DEPLOYMENT_PROFILE, normalised.
unfoldable pub deployment_profile : Option String → String
unfolding lstrip rstrip lower
deployment_profile env = lower (rstrip (lstrip (or_empty env)))

unfoldable pub escrow_permitted : Option String → Bool
escrow_permitted env = deployment_profile env == "swarmsync-marketplace"

unfoldable pub is_cato_facing : Option String → Bool
is_cato_facing env = deployment_profile env == "cato"

pub data ContainmentError : Type 0 where
  escrow_client_importable : ContainmentError

-- The boot assertion; its warning is left out.
unfoldable pub assert_escrow_containment : Option String → Bool → Result ContainmentError (Unit {0})
assert_escrow_containment env importable =
    if is_cato_facing env && importable then raise escrow_client_importable else ok tt

-- `envelope["escrow_blocked"] = True` on a dictionary that lacks the key.
unfoldable pub mark_blocked : Json → Json
mark_blocked (object fs) = object (field "escrow_blocked" (bool true) fs)
mark_blocked v = v

-- The envelope where prohibited_refusal raises.
abbrev fallback : String → Json
fallback tool = object (
    fields (
      ("ok", bool false)
      ∷ ("tool", text tool)
      ∷ ("error", object (fields (("code", text "policy_denied") ∷ ("retryable", bool false) ∷ [])))
      ∷ []))

abbrev pub envelope_or : Json → Result EnvelopeError Json → Json
envelope_or d (ok v) = v
envelope_or d (raise e) = d

-- The refusal for `escrow_client.<operation>`.
unfoldable pub escrow_blocked : String → String → Json
unfolding mark_blocked
escrow_blocked tool request_id =
    mark_blocked (envelope_or (fallback tool) (prohibited_refusal tool "A" none request_id))
