-- ===== src/Stacks/Client/Balances.antt =====
-- packages/stacks/src/index.ts: the balances of an address, with the pages of its tokens and the
-- older endpoint.
use riskrail.Base.{
  ℕ, zero, suc, ◌≡◌, ap, Bool, false, not, String, Option, none, some, List, [], ◌∷◌, ◌++◌, ◌==◌,
  append-nil, length, ◌≤◌, sym, if◌then◌else◌, arith,
}
use riskrail.Base.Text.{is_empty}
use riskrail.Stacks.Client.{Answer}

pub record FungibleTokenBalance : Type 0 where
  pub asset_identifier : String
  pub balance : String

pub record Page : Type 0 where
  pub results : List FungibleTokenBalance
  pub next : Option String

pub record StxBalance : Type 0 where
  pub balance : String
  pub available : String
  pub locked : String

pub record AddressBalances : Type 0 where
  pub stx : StxBalance
  pub fungible_tokens : List FungibleTokenBalance

-- the cursor, where it is a text that is not empty
abbrev pub cursor_of : Option String → Option String
cursor_of none = none
cursor_of (some s) = if is_empty s then none else some s

-- the answers of the endpoint of the pages, by the cursor that is sent
abbrev pub Pages : Type 0
Pages = Option String → Answer Page

-- What `getAllFungibleTokenBalances` ends with: the rows, an error, or nothing within `fuel` pages.
pub data Rows : Type 0 where
  rows : List FungibleTokenBalance → Rows
  failed : Answer Page → Rows
  unfinished : Rows

abbrev with_earlier : List FungibleTokenBalance → Rows → Rows
with_earlier earlier (rows later) = rows (earlier ++ later)
with_earlier earlier r = r

unfoldable pub all_balances : ℕ → Pages → Option String → Rows
all_balances zero pages cursor = unfinished
all_balances (suc fuel) pages cursor = elim (pages cursor) [
  | Answer.answered_with page ↦
      let rest = all_balances fuel pages (cursor_of page.next) in
      elim (cursor_of page.next) [
        | none ↦ rows page.results
        | some c ↦ with_earlier page.results rest
      ]
  | Answer.http_status n ↦ failed (Answer.http_status n)
  | Answer.broken ↦ failed Answer.broken
]

-- A chain of pages: each but the last one names the next one.
pub data IsChain (pages : Pages) : Option String → List Page → Type 0 where
  last :
      (cursor : Option String) (page : Page)
      → pages cursor ≡ Answer.answered_with page
      → cursor_of page.next ≡ none
      → IsChain pages cursor (page ∷ [])
  further :
      (cursor : Option String) (page : Page) (next : String) (rest : List Page)
      → pages cursor ≡ Answer.answered_with page
      → cursor_of page.next ≡ some next
      → IsChain pages (some next) rest
      → IsChain pages cursor (page ∷ rest)

abbrev pub rows_of : List Page → List FungibleTokenBalance
rows_of [] = []
rows_of (page ∷ pages) = page.results ++ rows_of pages

-- With at least as much fuel as there are pages, the loop ends with the rows of all pages, in their
-- order.
pub all_balances-IsChain :
    (pages : Pages) (fuel : ℕ) {cursor : Option String} {chain : List Page}
    → IsChain pages cursor chain
    → length chain ≤ fuel
    → all_balances fuel pages cursor ≡ rows (rows_of chain)
unfolding all_balances
all_balances-IsChain pages zero (last cursor page h k) less = absurd (omega (arith, less))
all_balances-IsChain pages zero (further cursor page next rest h k later) less =
    absurd (omega (arith, less))
all_balances-IsChain pages (suc fuel) (last cursor page h k) less =
    rw (all_balances, h, k) (ap rows (sym (append-nil page.results)))
all_balances-IsChain pages (suc fuel) (further cursor page next rest h k later) less =
    rw (all_balances, h, k, k, all_balances-IsChain pages fuel later (omega (arith, less)))

-- The balances of the two endpoints, and of the older one. The first two are asked at once: where
-- both fail, the error of the first one counts here.
pub record Endpoints : Type 0 where
  pub stx : Answer StxBalance
  pub tokens : Rows
  pub legacy : Answer (String × List FungibleTokenBalance)

-- `error instanceof StacksApiError && error.status !== 404`
abbrev pub is_final {ℓ} : {A : Type ℓ} → Answer A → Bool
is_final (Answer.http_status n) = not (n == 404)
is_final _ = false

unfoldable pub from_legacy : Answer (String × List FungibleTokenBalance) → Option AddressBalances
from_legacy (Answer.answered_with (balance, tokens)) = some (record {
  stx = record { balance = balance; available = balance; locked = "0" };
  fungible_tokens = tokens;
})
from_legacy _ = none

-- `getAddressBalances`: `none` where it throws
unfoldable pub get_address_balances : Endpoints → Option AddressBalances
unfolding from_legacy
get_address_balances e = elim e.stx [
  | Answer.answered_with stx ↦ elim e.tokens [
    | rows tokens ↦ some (record { stx = stx; fungible_tokens = tokens })
    | failed answer ↦ if is_final answer then none else from_legacy e.legacy
    | unfinished ↦ none
  ]
  | Answer.http_status n ↦ if n == 404 then from_legacy e.legacy else none
  | Answer.broken ↦ from_legacy e.legacy
]
