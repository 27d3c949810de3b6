-- ===== src/Adapters/Bitpay/Streams.antt =====
-- What the BitPay adapter counts of a stream, and which streams it looks at.
use text.Mathlib.Text.{◌==◌ as str_eq}
use native.Mathlib.Nat.{div-lt_iff_lt-mul, div-mul-le_self, lt-mul-div-succ, mul_comm}
use riskrail.Base.{
  ℕ, ◌+◌, ◌-◌, ◌*◌, ◌/◌, ◌≤◌, ◌<◌, ◌≡◌, refl, subst, ◌∙◌, inl, inr, Bool-cases, Bool, false, not,
  ◌&&◌, ◌||◌, String, Option, some, List, [], ◌∷◌, ◌++◌, ltb, leb, ◌==◌, any, keep, any-append, map,
  eq_refl, All, if◌then◌else◌, arith,
}
use riskrail.Base.Decimal.{of_decimal, of_decimal-to_decimal}
use riskrail.Base.Int.{pos, pos_part, ◌≤ℤ◌}
use riskrail.Adapters.Bitpay.{
  unique, sort, insert_sorted, Amounts, outstanding, currently_withdrawable, liquid_bps,
  BitPayStream, stream_position, claim_assets,
}
use riskrail.Position.{PositionAsset, Role}
use riskrail.Adapters.Decode.{AdapterContext}

-- each number is less than the numbers after it
abbrev pub IsAscending : List ℕ → Type 0
IsAscending [] = Unit
IsAscending (n ∷ ns) = All (λ k. n < k) ns × IsAscending ns

any-keep_other :
    (n k : ℕ) (ns : List ℕ)
    → any (λ j. j == n) (keep (λ j. not (j == k)) ns) ≡ (not (n == k) && any (λ j. j == n) ns)
any-keep_other n k [] = ground arith
any-keep_other n k (j ∷ ns) = ground (arith, any-keep_other n k ns)

any-unique : (n : ℕ) (ns : List ℕ) → any (λ j. j == n) (unique ns) ≡ any (λ j. j == n) ns
unfolding unique
any-unique n [] = refl
any-unique n (k ∷ ns) = ground (arith, any-keep_other n k (unique ns), any-unique n ns)

any-insert_sorted :
    (n k : ℕ) (ns : List ℕ)
    → any (λ j. j == n) (insert_sorted k ns) ≡ (k == n || any (λ j. j == n) ns)
any-insert_sorted n k [] = ground arith
any-insert_sorted n k (j ∷ ns) = ground (arith, any-insert_sorted n k ns)

any-sort : (n : ℕ) (ns : List ℕ) → any (λ j. j == n) (sort ns) ≡ any (λ j. j == n) ns
unfolding sort
any-sort n [] = refl
any-sort n (k ∷ ns) = ground (arith, any-insert_sorted n k (sort ns), any-sort n ns)

abbrev IsDistinct : List ℕ → Type 0
IsDistinct [] = Unit
IsDistinct (n ∷ ns) = (any (λ j. j == n) ns ≡ false) × IsDistinct ns

any-keep :
    (p : ℕ → Bool) (n : ℕ) (ns : List ℕ)
    → any (λ j. j == n) ns ≡ false
    → any (λ j. j == n) (keep p ns) ≡ false
any-keep p n [] h = refl
any-keep p n (k ∷ ns) h = ground (arith, h, any-keep p n ns)

IsDistinct-keep : (p : ℕ → Bool) (ns : List ℕ) → IsDistinct ns → IsDistinct (keep p ns)
IsDistinct-keep p [] h = tt
IsDistinct-keep p (n ∷ ns) (h, hs) = elim (Bool-cases (p n)) [
  | inl e ↦ rw e (any-keep p n ns h, IsDistinct-keep p ns hs)
  | inr e ↦ rw e (IsDistinct-keep p ns hs)
]

unique-IsDistinct : (ns : List ℕ) → IsDistinct (unique ns)
unfolding unique
unique-IsDistinct [] = tt
unique-IsDistinct (n ∷ ns) = (
  any-keep_other n n (unique ns) ∙ ground arith,
  IsDistinct-keep (λ j. not (j == n)) (unique ns) (unique-IsDistinct ns),
)

below-insert_sorted :
    (m k : ℕ) (ns : List ℕ) → m < k → All (λ j. m < j) ns → All (λ j. m < j) (insert_sorted k ns)
below-insert_sorted m k [] h hs = (h, tt)
below-insert_sorted m k (j ∷ ns) h (g, gs) = elim (Bool-cases (leb k j)) [
  | inl e ↦ rw e (h, (g, gs))
  | inr e ↦ rw e (g, below-insert_sorted m k ns h gs)
]

below_trans : (m k : ℕ) (ns : List ℕ) → m < k → All (λ j. k < j) ns → All (λ j. m < j) ns
below_trans m k [] h hs = tt
below_trans m k (j ∷ ns) h (g, gs) = (omega (arith, h, g), below_trans m k ns h gs)

insert_sorted-IsAscending :
    (k : ℕ) (ns : List ℕ)
    → any (λ j. j == k) ns ≡ false
    → IsAscending ns
    → IsAscending (insert_sorted k ns)
insert_sorted-IsAscending k [] other h = (tt, tt)
insert_sorted-IsAscending k (j ∷ ns) other (g, gs) = elim (Bool-cases (leb k j)) [
  | inl e ↦
      let less : k < j = ground (arith, e, other) in
      rw e ((less, below_trans k j ns less g), (g, gs))
  | inr e ↦ rw e (
    below-insert_sorted j k ns (ground (arith, e)) g,
    insert_sorted-IsAscending k ns (ground (arith, other)) gs,
  )
]

sort-IsAscending : (ns : List ℕ) → IsDistinct ns → IsAscending (sort ns)
unfolding sort
sort-IsAscending [] h = tt
sort-IsAscending (n ∷ ns) (h, hs) =
    insert_sorted-IsAscending n (sort ns) (any-sort n ns ∙ h) (sort-IsAscending ns hs)

-- Of two lists of streams the adapter looks at exactly the streams that one of them names, each
-- once and in ascending order.
pub sort-unique :
    (sent received : List ℕ)
    → IsAscending (sort (unique (sent ++ received)))
      × ((n : ℕ)
          → any (λ k. k == n) (sort (unique (sent ++ received)))
            ≡ (any (λ k. k == n) sent || any (λ k. k == n) received))
sort-unique sent received = (
  sort-IsAscending (unique (sent ++ received)) (unique-IsDistinct (sent ++ received)),
  λ n.
      any-sort n (unique (sent ++ received))
      ∙ (any-unique n (sent ++ received) ∙ any-append (λ k. k == n) sent received),
)

floor-bounds :
    (claim rest : ℕ)
    → 0 < rest
    → claim ≤ rest
    → (claim * 10000 / rest ≤ 10000)
      × (claim * 10000 / rest * rest ≤ claim * 10000)
      × (claim * 10000 < (claim * 10000 / rest + 1) * rest)
floor-bounds claim rest some_rest within =
    let below : claim * 10000 / rest < 10001 =
      (div-lt_iff_lt-mul some_rest).1 (omega (arith, some_rest, within)) in
    (
      omega (arith, below),
      div-mul-le_self (claim * 10000) rest,
      subst (λ k. claim * 10000 < k) (mul_comm rest (claim * 10000 / rest + 1))
          (lt-mul-div-succ (claim * 10000) some_rest),
    )

liquid_bps-eq :
    (a : Amounts)
    → a.withdrawn < a.total
    → liquid_bps a ≡ pos ((a.vested - a.withdrawn) * 10000 / (a.total - a.withdrawn))
unfolding liquid_bps outstanding currently_withdrawable
liquid_bps-eq a live = ground (arith, live)

-- The part of a live stream that counts as liquid is the share of the claim in the rest, rounded
-- down to basis points, and needs no clamping as long as no more is vested than the stream holds.
pub liquid_bps-floor :
    (a : Amounts)
    → a.withdrawn < a.total
    → a.vested ≤ a.total
    → (pos 0 ≤ℤ liquid_bps a)
      × (liquid_bps a ≤ℤ pos 10000)
      × (pos_part (liquid_bps a) * (a.total - a.withdrawn) ≤ (a.vested - a.withdrawn) * 10000)
      × ((a.vested - a.withdrawn) * 10000 < (pos_part (liquid_bps a) + 1) * (a.total - a.withdrawn))
liquid_bps-floor a live within =
    let rest = a.total - a.withdrawn in
    let claim = a.vested - a.withdrawn in
    let exact = floor-bounds claim rest (omega (arith, live)) (omega (arith, live, within)) in
    rw (liquid_bps-eq a live) (omega arith, omega (arith, exact.0), exact.1, exact.2)

-- The two parties of a live stream: between them its rest is counted exactly once, as the locked
-- asset of the recipient, and the text of the amount reads back as the rest of the stream.
pub stream_position-counted_once :
    (sender recipient contract : String) (context : AdapterContext) (id : ℕ) (stream : BitPayStream)
    (a : Amounts)
    → stream.recipient ≡ recipient
    → str_eq sender recipient ≡ false
    → a.withdrawn < a.total
    → ((stream_position sender contract context id stream a).assets ≡ [])
      × (map {B = Role × Option ℕ}
            (λ (x : PositionAsset). (x.role, of_decimal x.amount_atomic))
            (stream_position recipient contract context id stream a).assets
          ≡ (Role.locked, some (a.total - a.withdrawn)) ∷ [])
unfolding stream_position claim_assets outstanding
stream_position-counted_once sender recipient contract context id stream a is other live = (
  rw (is, other),
  rw
      (
        is,
        eq_refl recipient,
        of_decimal-to_decimal (if ltb a.withdrawn a.total then a.total - a.withdrawn else 0),
      )
      (ground (arith, live)),
)
