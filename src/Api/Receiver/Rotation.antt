-- ===== src/Api/Receiver/Rotation.antt =====
-- While a secret is rotated, the setting has it beside its predecessor.
use Prim.Native.Char.{Char, code}
use text.Mathlib.Text.{◌==◌}
use text.Mathlib.TextEquality.{Char-path}
use riskrail.Base.{
  ◌≡◌, refl, sym, ap, ◌∙◌, some_injective, eq_iff, Bool-cases, Option-cases, inl, inr,
  ◌==◌ as nat_eq, Bool, true, false, not, ◌&&◌, ◌||◌, String, none, some, [], ◌∷◌, arith,
}
use riskrail.Base.Text.{
  is_empty, is_space, all_chars, all_chars-implies, trim, trim-none, split_on-join, split_on-none,
  join, after_prefix, after_prefix-join,
}
use riskrail.Api.Receiver.{accepted_tokens, authorized}

-- neither white space nor a comma
abbrev pub is_secret_char : Char → Bool
is_secret_char c = not (is_space c) && not (nat_eq (code c) 44)

pub record IsSecret (s : String) : Type 0 where
  pub given : is_empty s ≡ false
  pub chars : all_chars is_secret_char s ≡ true

trim-IsSecret : (s : String) → IsSecret s → trim s ≡ s
trim-IsSecret s h =
    trim-none s (all_chars-implies is_secret_char _ s (λ c k. ground (arith, k)) h.chars)

uncut : (s : String) → IsSecret s → all_chars (λ c. not (nat_eq (code c) 44)) s ≡ true
uncut s h = all_chars-implies is_secret_char _ s (λ c k. ground (arith, k)) h.chars

accepted_tokens-two :
    (a b : String)
    → IsSecret a
    → IsSecret b
    → accepted_tokens (some (join a (join "," b))) ≡ a ∷ b ∷ []
unfolding accepted_tokens
accepted_tokens-two a b h k =
    rw
      (
        split_on-join 44 a b "," (uncut a h) refl,
        split_on-none 44 b (uncut b k),
        trim-IsSecret a h,
        trim-IsSecret b k,
        h.given,
        k.given,
      )
      refl

join-after_prefix : (p t s : String) → after_prefix p s ≡ some t → s ≡ join p t
join-after_prefix String.[] t s h = some_injective h
join-after_prefix (String.◌∷◌ c p) t String.[] h = absurd (ground (arith, h))
join-after_prefix (String.◌∷◌ c p) t (String.◌∷◌ d s) h =
    elim (Bool-cases (nat_eq (code c) (code d))) [
      | inl same ↦
          ap (λ e. String.◌∷◌ e s) (sym (Char-path c d (ground (arith, same))))
          ∙ ap (String.◌∷◌ c) (join-after_prefix p t s (ground (arith, h, same)))
      | inr different ↦ absurd (ground (arith, h, different))
    ]

-- a header without the prefix is no header with a secret
other :
    (a header : String)
    → after_prefix "Bearer " header ≡ none
    → (header == join "Bearer " a) ≡ false
other a header missing = elim (Bool-cases (header == join "Bearer " a)) [
  | inl same ↦
      let given : after_prefix "Bearer " header ≡ some a =
        ap (after_prefix "Bearer ") ((eq_iff header (join "Bearer " a)).0 same)
        ∙ after_prefix-join "Bearer " a in
      absurd (ground (arith, missing, given))
  | inr different ↦ different
]

-- what follows the prefix is compared as the whole header is
same_rest :
    (a p header : String)
    → after_prefix "Bearer " header ≡ some p
    → (a == p) ≡ (header == join "Bearer " a)
same_rest a p header given = elim (Bool-cases (header == join "Bearer " a)) [
  | inl same ↦
      let cut : some a ≡ some p =
        sym (after_prefix-join "Bearer " a)
        ∙ (ap (after_prefix "Bearer ") (sym ((eq_iff header (join "Bearer " a)).0 same)) ∙ given) in
      (eq_iff a p).1 (some_injective cut) ∙ sym same
  | inr different ↦ elim (Bool-cases (a == p)) [
    | inl same ↦
        let whole : header ≡ join "Bearer " a =
          join-after_prefix "Bearer " p header given
          ∙ ap (join "Bearer ") (sym ((eq_iff a p).0 same)) in
        absurd (ground (arith, different, (eq_iff header (join "Bearer " a)).1 whole))
    | inr unlike ↦ unlike ∙ sym different
  ]
]

-- With two secrets in the setting, a delivery is let through exactly if its header, whatever text it
-- is, is `Bearer`, a space and the one secret, or the same with the other; without a header none is.
pub authorized-two :
    (a b header : String)
    → IsSecret a
    → IsSecret b
    → (authorized (some (join a (join "," b))) (some header)
        ≡ (header == join "Bearer " a || header == join "Bearer " b))
      × (authorized (some (join a (join "," b))) none ≡ false)
unfolding authorized
authorized-two a b header h k = elim (Option-cases (after_prefix "Bearer " header)) [
  | inl missing ↦ (ground (arith, missing, other a header missing, other b header missing), refl)
  | inr (p, given) ↦ (
    ground (
      arith,
      given,
      accepted_tokens-two a b h k,
      same_rest a p header given,
      same_rest b p header given,
    ),
    refl,
  )
]
