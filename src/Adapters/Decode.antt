-- ===== src/Adapters/Decode.antt =====
-- The readers of unwrapped contract data that the BitPay and the Zest adapter both have, each with
-- its errors: `none` stands for a thrown error.
use Prim.Native.Char.{code}
use riskrail.Base.{ℕ, ◌+◌, true, ◌==◌, String, Option, none, some, List, or_default, if◌then◌else◌}
use riskrail.Base.Decimal.{to_decimal}
use riskrail.Base.Int.{ℤ, pos, negsuc}
use riskrail.Value.{Value, number, bigint, str}
use riskrail.Position.{Source}
use riskrail.Stacks.Clarity.{unwrap_clarity}

-- `text.replace(/^u/, '')`
abbrev pub without_u : String → String
without_u String.[] = String.[]
without_u (String.◌∷◌ c s) = if code c == 117 then s else String.◌∷◌ c s

-- `n.toString()`
abbrev pub int_text : ℤ → String
unfolding to_decimal
int_text (pos n) = to_decimal n
int_text (negsuc n) = String.◌∷◌ ("-") (to_decimal (n + 1))

unfoldable pub uint_text : Value → Option String
unfolding int_text
uint_text (bigint n) = some (int_text n)
uint_text (number n) = some (int_text n)
uint_text (str s) = some (without_u s)
uint_text _ = none

-- `asUintString`
unfoldable pub as_uint_string : Value → Option String
unfolding uint_text unwrap_clarity
as_uint_string v = uint_text (unwrap_clarity v)

-- `asString`
unfoldable pub as_string : Value → Option String
unfolding unwrap_clarity
as_string v = elim (unwrap_clarity v) [ str s ↦ some s | _ ↦ none ]

-- `Number.MAX_SAFE_INTEGER`
abbrev pub max_safe_integer : ℕ
max_safe_integer = 9007199254740991

pub data Argument : Type 0 where
  principal_cv : String → Argument
  uint_cv : ℕ → Argument

-- `callReadOnly` of a contract's function, with the sender: `none` where the client throws
abbrev pub CallReadOnly : Type 0
CallReadOnly = String → String → List Argument → Option String → Option Value

-- the context of an adapter's run: the height of the block, and the text of the present time
pub record AdapterContext : Type 0 where
  pub block_height : Option ℕ
  pub now : String

abbrev pub source_of : AdapterContext → Source
source_of context = record {
  block_height = or_default context.block_height 0;
  observed_at = context.now;
  exact = true;
}
