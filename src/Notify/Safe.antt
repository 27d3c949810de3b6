-- ===== src/Notify/Safe.antt =====
-- No value can add markup to a mail, and no part a colon to a job's identifier.
use Prim.Native.Char.{Char, code}
use riskrail.Base.{
  ℕ, ◌≡◌, refl, ap, sym, ◌∙◌, Bool, true, not, ◌&&◌, ◌||◌, String, Option, List, [], ◌∷◌, map, ◌==◌,
  arith, Bool-cases, inl, inr, if◌then◌else◌,
}
use riskrail.Base.Text.{join, all_chars}
use riskrail.Notify.{
  replace_char, escape_html, Piece, markup, value, page, template, AlertEmailInput, AlertSource,
  local, on_chain, render_alert_email, origin_text, job_id, join_dashes, given_parts,
}

all_chars-join :
    (p : Char → Bool) (a b : String) → all_chars p (join a b) ≡ (all_chars p a && all_chars p b)
all_chars-join p String.[] b = refl
all_chars-join p (String.◌∷◌ c a) b = ground (arith, all_chars-join p a b)

-- the characters that open or close a tag or an attribute
abbrev pub is_mark : Char → Bool
is_mark c = code c == 60 || (code c == 62 || code c == 34)

-- the marks of a text, in their order
abbrev pub marks : String → String
marks String.[] = String.[]
marks (String.◌∷◌ c s) = let rest = marks s in if is_mark c then String.◌∷◌ c rest else rest

marks-join : (a b : String) → marks (join a b) ≡ join (marks a) (marks b)
marks-join String.[] b = refl
marks-join (String.◌∷◌ c a) b = elim (Bool-cases (is_mark c)) [
  | inl e ↦ rw e (ap (λ s. String.◌∷◌ c s) (marks-join a b))
  | inr e ↦ rw e (marks-join a b)
]

all_chars-replace_char :
    (p : Char → Bool) (n : ℕ) (by s : String)
    → all_chars p by ≡ true
    → all_chars (λ c. p c || code c == n) s ≡ true
    → all_chars p (replace_char n by s) ≡ true
unfolding replace_char
all_chars-replace_char p n by String.[] h k = refl
all_chars-replace_char p n by (String.◌∷◌ c s) h k = elim (Bool-cases (code c == n)) [
  | inl e ↦ rw e (
      all_chars-join p by (replace_char n by s)
      ∙ ground (arith, h, k, all_chars-replace_char p n by s h))
  | inr e ↦ rw e (ground (arith, e, k, all_chars-replace_char p n by s h))
]

all_chars_any : (p : Char → Bool) (s : String) → ((c : Char) → p c ≡ true) → all_chars p s ≡ true
all_chars_any p String.[] each = refl
all_chars_any p (String.◌∷◌ c s) each = ground (arith, each c, all_chars_any p s each)

marks_none : (s : String) → all_chars (λ c. not (is_mark c)) s ≡ true → marks s ≡ ""
marks_none String.[] h = refl
marks_none (String.◌∷◌ c s) h = ground (arith, h, marks_none s)

-- an escaped text has no marks
escape_html-marks : (s : String) → marks (escape_html s) ≡ ""
unfolding escape_html
escape_html-marks s =
    let p : Char → Bool = λ c. not (is_mark c) in
    let q : Char → Bool = λ c. p c || code c == 34 in
    let r : Char → Bool = λ c. q c || code c == 62 in
    let t : Char → Bool = λ c. r c || code c == 60 in
    let first = replace_char 38 "&amp;" s in
    let second = replace_char 60 "&lt;" first in
    let third = replace_char 62 "&gt;" second in
    marks_none (replace_char 34 "&quot;" third) (
      all_chars-replace_char p 34 "&quot;" third refl (
        all_chars-replace_char q 62 "&gt;" second refl (
          all_chars-replace_char r 60 "&lt;" first refl
            (all_chars_any t first (λ c. ground arith)))))

-- the marks of the template alone
skeleton : List Piece → String
skeleton [] = ""
skeleton (markup s ∷ rest) = join (marks s) (skeleton rest)
skeleton (value s ∷ rest) = skeleton rest

marks-page : (ps : List Piece) → marks (page ps) ≡ skeleton ps
unfolding page skeleton
marks-page [] = refl
marks-page (markup s ∷ rest) = marks-join s (page rest) ∙ ap (join (marks s)) (marks-page rest)
marks-page (value s ∷ rest) =
    marks-join (escape_html s) (page rest) ∙ rw (escape_html-marks s) (marks-page rest)

origin_text-marks : (source : AlertSource) → marks (origin_text source) ≡ ""
unfolding origin_text
origin_text-marks local = refl
origin_text-marks on_chain = refl

skeleton-template : (a b : AlertEmailInput) → skeleton (template a) ≡ skeleton (template b)
unfolding skeleton template
skeleton-template a b = rw (origin_text-marks a.source, origin_text-marks b.source)

-- The characters that make up markup are the same ones, in the same order, in the page of every
-- alert: no value can open a tag, close one or leave an attribute.
pub render_alert_email-marks :
    (a b : AlertEmailInput) → marks (render_alert_email a).html ≡ marks (render_alert_email b).html
unfolding render_alert_email
render_alert_email-marks a b =
    marks-page (template a) ∙ (skeleton-template a b ∙ sym (marks-page (template b)))

abbrev is_no_colon : Char → Bool
is_no_colon c = not (code c == 58)

replaced_no_colon : (s : String) → all_chars is_no_colon (replace_char 58 "-" s) ≡ true
replaced_no_colon s =
    all_chars-replace_char is_no_colon 58 "-" s refl
      (all_chars_any (λ c. is_no_colon c || code c == 58) s (λ c. ground arith))

dashes_no_colon :
    (parts : List String)
    → all_chars is_no_colon (join_dashes (map (replace_char 58 "-") parts)) ≡ true
dashes_no_colon [] = refl
dashes_no_colon (s ∷ []) = replaced_no_colon s
dashes_no_colon (s ∷ t ∷ rest) =
    all_chars-join is_no_colon (replace_char 58 "-" s)
      (join "-" (join_dashes (map (replace_char 58 "-") (t ∷ rest))))
    ∙ ground (arith, replaced_no_colon s, dashes_no_colon (t ∷ rest))

-- No identifier of a job has a colon, which the queue refuses, whatever its parts are.
pub job_id-no_colon :
    (parts : List (Option String)) → all_chars (λ c. not (code c == 58)) (job_id parts) ≡ true
unfolding job_id
job_id-no_colon parts = dashes_no_colon (given_parts parts)
