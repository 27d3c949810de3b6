-- ===== src/Web/Sections/Paths.antt =====
-- A path of the dashboard belongs to the section that it was made for.
use Prim.Native.Char.{code}
use riskrail.Base.{◌≡◌, refl, ap, ◌∙◌, ◌==◌ as nat_eq, true, not, String}
use riskrail.Base.Text.{all_chars, split_on, split_on-join, split_on-none, join}
use riskrail.Web.Sections.{
  section_path, section_href, below_dashboard, first_part, section_of, section_for_path,
}

-- the path of a section that is not the overview, with what may follow it
below_dashboard-join : (s : String) → below_dashboard (join "/dashboard/" s) ≡ s
unfolding below_dashboard
below_dashboard-join s = refl

part-section_path :
    (segment : String)
    → all_chars (λ c. not (nat_eq (code c) 47)) segment ≡ true
    → first_part (split_on 47 (below_dashboard (section_path segment))) ≡ segment
unfolding below_dashboard split_on
part-section_path String.[] h = refl
part-section_path (String.◌∷◌ c s) h = ap first_part (split_on-none 47 (String.◌∷◌ c s) h)

-- A path made for a segment without a slash, or one below it, belongs to the section of that segment,
-- and the link of every section leads back to it.
pub section_for_path-below :
    (encode : String → String) (segment below : String)
    → all_chars (λ c. not (nat_eq (code c) 47)) segment ≡ true
    → (section_for_path (section_href encode segment "") ≡ section_of segment)
      × (section_for_path (join "/dashboard/" (join segment (join "/" below))) ≡ section_of segment)
unfolding section_for_path section_href
section_for_path-below encode segment below h = (
  ap section_of (part-section_path segment h),
  ap section_of (
      ap (λ s. first_part (split_on 47 s)) (below_dashboard-join (join segment (join "/" below)))
      ∙ ap first_part (split_on-join 47 segment below "/" h refl)),
)
