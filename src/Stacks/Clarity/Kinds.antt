-- ===== src/Stacks/Clarity/Kinds.antt =====
-- The kind of a type's text is its outermost constructor.
use Prim.Native.Char.{Char, code}
use Prim.Native.String.{String}
use riskrail.Base.{
  ◌≡◌, ap, ◌∙◌, Bool-cases, inl, inr, Bool, true, not, ◌&&◌, ◌||◌, ◌==◌, arith, if◌then◌else◌,
}
use riskrail.Base.Text.{to_lower, trim_end, is_space, is_empty, join}
use riskrail.Stacks.Clarity.{clarity_kind, before_separator}

-- without white space and brackets
abbrev pub is_word : String → Bool
is_word String.[] = true
is_word (String.◌∷◌ c s) = not (is_space c || (code c == 40 || code c == 41)) && is_word s

before_separator-step :
    (c : Char) (s : String)
    → before_separator (trim_end (String.◌∷◌ c s)) ≡ (
        if is_space c || (code c == 40 || code c == 41)
        then String.[]
        else String.◌∷◌ c (before_separator (trim_end s)))
before_separator-step c s = elim (Bool-cases (is_space c)) [
  | inl e ↦ elim (Bool-cases (is_empty (trim_end s))) [ inl f ↦ rw (e, f) | inr f ↦ rw (e, f, e) ]
  | inr e ↦ rw (e, e)
]

before_separator-word :
    (head rest : String)
    → is_word head ≡ true
    → before_separator (trim_end (join head (join " " rest))) ≡ head
before_separator-word String.[] rest h = before_separator-step (" ") rest
before_separator-word (String.◌∷◌ c s) rest h =
    before_separator-step c (join s (join " " rest)) ∙ ground (arith, before_separator-word s rest)

-- The kind of a type `(head ...)` is its head, whatever stands after it, for a head in lower case
-- that has no white space or brackets.
pub clarity_kind-head :
    (head rest : String)
    → is_word head ≡ true
    → to_lower head ≡ head
    → clarity_kind (join "(" (join head (join " " rest))) ≡ head
unfolding clarity_kind
clarity_kind-head head rest word lower = ap to_lower (before_separator-word head rest word) ∙ lower
