-- ===== src/Text.antt =====
-- Python's texts: truth value, `x or ""`, ASCII, and tokens of three parts joined by dots.
use Prim.Native.Char.{Char, code}
use Prim.Native.String.{◌++◌ as cat}
use text.Mathlib.TextLemmas.{nil-append, cons-append}
use genesis_agents.Base.{
  ℕ, suc, String, ◌≡◌, Bool, true, false, not, ◌&&◌, ◌||◌, Option, none, some, ◌==◌, ltb, nat_eq,
  if◌then◌else◌, arith,
}

-- `if s:` for a text.
abbrev pub truthy : String → Bool
truthy s = not (s == "")

-- `if s:` for a text or None.
abbrev pub truthy? : Option String → Bool
truthy? none = false
truthy? (some s) = truthy s

-- `str(s or "")`
abbrev pub or_empty : Option String → String
or_empty none = ""
or_empty (some s) = s

-- `len(s)`: the number of characters.
unfoldable pub chars : String → ℕ
chars String.[] = 0
chars (String.◌∷◌ c s) = suc (chars s)

-- `hmac.compare_digest` takes texts of ASCII characters alone, and raises a TypeError at others.
unfoldable pub is_ascii : String → Bool
is_ascii String.[] = true
is_ascii (String.◌∷◌ c s) = ltb (code c) 128 && is_ascii s

abbrev under : Char → Option (String × String) → Option (String × String)
under c none = none
under c (some (a, b)) = some (String.◌∷◌ c a, b)

-- The text before the first dot, and the text after it.
unfoldable pub cut_dot : String → Option (String × String)
cut_dot String.[] = none
cut_dot (String.◌∷◌ c s) =
    let rest = cut_dot s in if nat_eq (code c) b'.' then some (String.[], s) else under c rest

-- `a, b, c = s.split(".", 2)`, where `none` is the ValueError of fewer parts.
unfoldable pub split_dots : String → Option (String × String × String)
unfolding cut_dot
split_dots s = elim (cut_dot s) [
  | none ↦ none
  | some (a, r) ↦ elim (cut_dot r) [ none ↦ none | some (b, c) ↦ some (a, b, c) ]
]

unfoldable pub has_dot : String → Bool
has_dot String.[] = false
has_dot (String.◌∷◌ c s) = nat_eq (code c) b'.' || has_dot s

abbrev dot : Char
dot = "."

dot-append : (t : String) → cat "." t ≡ String.◌∷◌ dot t
dot-append t = rw (cons-append dot String.[] t, nil-append t)

cut_dot-append : (s t : String) → has_dot s ≡ false → cut_dot (cat s (cat "." t)) ≡ some (s, t)
unfolding cut_dot has_dot
cut_dot-append String.[] t h = rw (nil-append (cat "." t), dot-append t)
cut_dot-append (String.◌∷◌ c s) t h =
    rw (cons-append c s (cat "." t)) (ground (arith, cut_dot-append s t))

-- The token of three parts, f"{a}.{b}.{c}".
abbrev pub dotted : String → String → String → String
dotted a b c = cat a (cat "." (cat b (cat "." c)))

-- A token is taken apart into the parts it was made of, if the first two have no dot.
pub split_dots-dotted :
    (a b c : String)
    → has_dot a ≡ false
    → has_dot b ≡ false
    → split_dots (dotted a b c) ≡ some (a, b, c)
unfolding split_dots
split_dots-dotted a b c p q =
    rw (split_dots, cut_dot-append a (cat b (cat "." c)) p, cut_dot-append b c q)
