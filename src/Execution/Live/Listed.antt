-- ===== src/Execution/Live/Listed.antt =====
-- The resting orders that the exchange lists, and their cancelling: `cancel_order`,
-- `list_open_sell_orders`, `list_open_buy_orders` and `cancel_open_sell_orders` of
-- execution/live.py, and the pages of `get_fills`.
use forecastology.Prelude.{
  ℕ, zero, suc, ◌*◌, ◌/◌, Bool, true, false, not, ◌&&◌, ◌||◌, Option, none, some, List, [], ◌∷◌,
  ◌++◌, leb, ◌==◌, if◌then◌else◌, get_or, is_some,
}
use forecastology.Prelude.Texts.{Text, codes, lower, has_text}
use forecastology.Strategy.Chase.Prices.{round_ratio}
use forecastology.Execution.Resting.Executor.{Reply, reply, raised}
use forecastology.Execution.Live.Values.{Value, absent, null, number, float, ◌or◌, ℕ_number}
use forecastology.Execution.Live.Client.{Response, is_ok, OrderDict, FillDict, FillsPage, Client}
use forecastology.Execution.Live.Filled.{same_ticker}
use Prim.Native.String.{String}
use text.Mathlib.Text.{starts_with, ◌==◌ as str_eq}

-- The statuses of an order that is no longer open.
abbrev pub closed_statuses : List Text
closed_statuses =
    codes "filled"
    ∷ codes "cancelled"
    ∷ codes "canceled"
    ∷ codes "expired"
    ∷ codes "settled"
    ∷ codes "not_found"
    ∷ []

abbrev pub or_id : Option ℕ → Option ℕ → Option ℕ
or_id none other = other
or_id (some n) other = some n

-- An open order of the market.
unfoldable pub is_open : ℕ → OrderDict → Bool
unfolding lower has_text
is_open ticker o =
    same_ticker ticker (or_id o.ticker o.market_ticker)
    && not (has_text (lower o.status) closed_statuses)

-- The loop of `list_open_sell_orders`: elements that are no dicts are skipped.
unfoldable pub open_orders : ℕ → List (Option OrderDict) → List OrderDict
unfolding is_open
open_orders ticker [] = []
open_orders ticker (none ∷ os) = open_orders ticker os
open_orders ticker (some o ∷ os) =
    let rest = open_orders ticker os in if is_open ticker o then o ∷ rest else rest

-- `if client_prefix and not cid.startswith(client_prefix): continue`
unfoldable pub has_client_prefix : String → String → Bool
has_client_prefix client_prefix cid = str_eq client_prefix "" || starts_with cid client_prefix

-- An order of `list_open_buy_orders`.
pub record OpenBuyOrder : Type 0 where
  pub order_id : ℕ
  pub price : ℕ
  pub quantity : ℕ
  pub client_order_id : String

abbrev or_text : Text → Text → Text
or_text [] other = other
or_text (c ∷ s) other = c ∷ s

-- The sides of a buy.
unfoldable pub is_buy_side : OrderDict → Bool
unfolding lower has_text
is_buy_side o =
    has_text (lower (or_text o.side o.action)) (codes "bid" ∷ codes "buy" ∷ codes "yes" ∷ [])

-- `value is None`
unfoldable pub is_none : Value ℕ → Bool
is_none absent = true
is_none null = true
is_none _ = false

-- The contracts that are left, 0 if they are no number.
unfoldable pub remaining_quantity : OrderDict → ℕ
unfolding is_none float ◌or◌
remaining_quantity o =
    let first = if is_none o.remaining_count then o.remaining_count_fp else o.remaining_count in
    let value = if is_none first then o.count or o.count_fp else first in
    get_or (float (value or number 0)) 0 / 10000

-- One turn of the loop over the price keys: a number up to 1 is an amount in dollars.
unfoldable pub price_at : Value ℕ → ℕ → ℕ
unfolding float round_ratio
price_at value price_cents = elim (float value) [
  | none ↦ price_cents
  | some f ↦ if leb f 10000 then round_ratio (f * 100) 10000 else round_ratio f 10000
]

-- The loop ends at the first price above 0.
unfoldable pub listed_price : OrderDict → ℕ
unfolding price_at
listed_price o =
    let first = price_at o.yes_price_dollars 0 in
    let second = if first == 0 then price_at o.yes_price first else first in
    if second == 0 then price_at o.price second else second

-- What one order adds to the list.
unfoldable pub as_open_buy : ℕ → String → OrderDict → Option OpenBuyOrder
unfolding is_open is_buy_side has_client_prefix listed_price remaining_quantity
as_open_buy ticker client_prefix o =
    if is_open ticker o && is_buy_side o && has_client_prefix client_prefix o.client_order_id
    then elim (or_id o.order_id o.id) [
      | none ↦ none
      | some id ↦ some (record {
        order_id = id;
        price = listed_price o;
        quantity = remaining_quantity o;
        client_order_id = o.client_order_id;
      })
    ]
    else none

unfoldable pub open_buys : ℕ → String → List (Option OrderDict) → List OpenBuyOrder
unfolding as_open_buy
open_buys ticker client_prefix [] = []
open_buys ticker client_prefix (none ∷ os) = open_buys ticker client_prefix os
open_buys ticker client_prefix (some o ∷ os) =
    let rest = open_buys ticker client_prefix os in
    elim (as_open_buy ticker client_prefix o) [ none ↦ rest | some b ↦ b ∷ rest ]

-- The orders of an answer; any error gives none.
abbrev pub listed : Reply (Response (List (Option OrderDict))) → List (Option OrderDict)
listed raised = []
listed (reply r) = if is_ok r then elim r.json [ raised ↦ [] | reply os ↦ os ] else []

-- The status codes that `cancel_order` takes for a cancelled order.
unfoldable pub is_cancelled : Reply ℕ → Bool
is_cancelled raised = false
is_cancelled (reply code) = code == 200 || code == 201 || code == 204 || code == 404

-- What one request for fills gives: an error, a body that does not parse, or a page.
pub data Page : Type 0 where
  stopped broken : Page
  page : List FillDict → Option ℕ → Page

abbrev pub page_of : Reply (Response FillsPage) → Page
page_of raised = stopped
page_of (reply r) =
    if is_ok r then elim r.json [ raised ↦ broken | reply p ↦ page p.fills p.cursor ] else stopped

-- `not (not cursor or not page)`
unfoldable pub has_more : List FillDict → Option ℕ → Bool
has_more [] next = false
has_more (f ∷ fs) next = is_some next

-- An error ends the loop with the fills so far, and a body that does not parse raises.
unfoldable pub after_page :
    {World : Type 0}
    → (Option ℕ → List FillDict → World → Reply (List FillDict) × World)
    → Page
    → List FillDict
    → World
    → Reply (List FillDict) × World
unfolding has_more
after_page rest stopped out w = (reply out, w)
after_page rest broken out w = (raised, w)
after_page rest (page fills next) out w =
    let more = rest next (out ++ fills) w in
    if has_more fills next then more else (reply (out ++ fills), w)

module _ {World : Type 0} (client : Client World) where
  -- An empty id is `none`.
  unfoldable pub cancel_order : Option ℕ → World → Bool × World
  unfolding is_cancelled
  cancel_order none w = (false, w)
  cancel_order (some id) w = let (r, w') = client.delete id w in (is_cancelled r, w')

  -- A ticker is never empty here.
  unfoldable pub list_open_sell_orders : ℕ → World → List OrderDict × World
  unfolding open_orders
  list_open_sell_orders ticker w =
      let (r, w') = client.get_orders ticker w in (open_orders ticker (listed r), w')

  unfoldable pub list_open_buy_orders : ℕ → String → World → List OpenBuyOrder × World
  unfolding open_buys
  list_open_buy_orders ticker client_prefix w =
      let (r, w') = client.get_orders ticker w in (open_buys ticker client_prefix (listed r), w')

  -- The loop of `cancel_open_sell_orders`, with the count so far, and one turn of it.
  unfoldable pub cancel_one : String → OrderDict → ℕ → World → ℕ × World
  unfolding cancel_order has_client_prefix
  cancel_one client_prefix o cancelled w =
      let (ok, w') = cancel_order o.order_id w in
      if has_client_prefix client_prefix o.client_order_id
      then (if ok then suc cancelled else cancelled, w')
      else (cancelled, w)

  unfoldable pub cancel_all : String → List OrderDict → ℕ → World → ℕ × World
  unfolding cancel_one
  cancel_all client_prefix [] cancelled w = (cancelled, w)
  cancel_all client_prefix (o ∷ os) cancelled w =
      let (counted, w') = cancel_one client_prefix o cancelled w in
      cancel_all client_prefix os counted w'

  unfoldable pub cancel_open_sell_orders : ℕ → String → World → ℕ × World
  unfolding list_open_sell_orders cancel_all
  cancel_open_sell_orders ticker client_prefix w =
      let (orders, w') = list_open_sell_orders ticker w in cancel_all client_prefix orders 0 w'

  -- The loop of `get_fills`, with the pages that are left, the cursor and the fills so far.
  unfoldable pub fills_from :
      Option ℕ → ℕ → ℕ → Option ℕ → List FillDict → World → Reply (List FillDict) × World
  unfolding after_page
  fills_from ticker limit zero cursor out w = (reply out, w)
  fills_from ticker limit (suc pages) cursor out w =
      let (r, w') = client.get_fills_page ticker limit cursor w in
      after_page (fills_from ticker limit pages) (page_of r) out w'

  unfoldable pub get_fills : Option ℕ → ℕ → ℕ → World → Reply (List FillDict) × World
  unfolding fills_from
  get_fills ticker limit max_pages w = fills_from ticker limit max_pages none [] w
