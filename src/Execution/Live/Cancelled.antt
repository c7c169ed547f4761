-- ===== src/Execution/Live/Cancelled.antt =====
-- Which orders `cancel_open_sell_orders` of the live executor deletes.
use forecastology.Prelude.{
  ℕ, suc, ◌≤◌, ◌≡◌, refl, Bool, true, false, not, ◌&&◌, ◌||◌, Option, none, some, List, [], ◌∷◌,
  ◌==◌, if◌then◌else◌, arith,
}
use Prim.Native.String.{String}
use text.Mathlib.Text.{starts_with, ◌==◌ as str_eq}
use forecastology.Prelude.Texts.{lower, has_text}
use forecastology.Execution.Live.Client.{OrderDict, Client}
use forecastology.Execution.Live.Filled.{same_ticker}
use forecastology.Execution.Live.Listed.{
  closed_statuses, or_id, is_open, open_orders, has_client_prefix, listed, is_cancelled,
  cancel_order, list_open_sell_orders, cancel_one, cancel_all, cancel_open_sell_orders,
}
use forecastology.Execution.Live.Sent.{Sent, posted, deleted, Journal, journaled}

-- The client order id starts with the prefix, which any does if that is empty.
abbrev pub is_prefixed : String → String → Bool
is_prefixed client_prefix cid = str_eq client_prefix "" || starts_with cid client_prefix

-- The order is of the market, and its status is none of the closed ones.
abbrev pub is_live : ℕ → OrderDict → Bool
is_live ticker o =
    same_ticker ticker (or_id o.ticker o.market_ticker)
    && not (has_text (lower o.status) closed_statuses)

-- The order has the id and the prefix.
abbrev carries : String → ℕ → OrderDict → Bool
carries client_prefix id o =
    is_prefixed client_prefix o.client_order_id && same_ticker id o.order_id

-- Some open order of the market in an answer has the id and the prefix.
pub is_own : ℕ → String → List (Option OrderDict) → ℕ → Bool
is_own ticker client_prefix [] id = false
is_own ticker client_prefix (none ∷ os) id = is_own ticker client_prefix os id
is_own ticker client_prefix (some o ∷ os) id =
    is_live ticker o && carries client_prefix id o || is_own ticker client_prefix os id

is_listed : String → List OrderDict → ℕ → Bool
is_listed client_prefix [] id = false
is_listed client_prefix (o ∷ os) id = carries client_prefix id o || is_listed client_prefix os id

open_orders-own :
    (ticker : ℕ) (client_prefix : String) (os : List (Option OrderDict)) (id : ℕ)
    → is_listed client_prefix (open_orders ticker os) id ≡ true
    → is_own ticker client_prefix os id ≡ true
unfolding open_orders is_open is_listed is_own
open_orders-own ticker client_prefix [] id h = h
open_orders-own ticker client_prefix (none ∷ os) id h = open_orders-own ticker client_prefix os id h
open_orders-own ticker client_prefix (some o ∷ os) id h =
    ground (arith, open_orders-own ticker client_prefix os id)

-- Nothing but deletions, each of an id that passes.
abbrev pub AllDeleted : (ℕ → Bool) → List Sent → Type 0
AllDeleted q [] = Unit
AllDeleted q (posted p ∷ sent) = false ≡ true
AllDeleted q (deleted id ∷ sent) = (q id ≡ true) × AllDeleted q sent

abbrev pub count : List Sent → ℕ
count [] = 0
count (s ∷ sent) = suc (count sent)

==_refl : (id : ℕ) → (id == id) ≡ true
==_refl id = ground arith

counted_bound : (b : Bool) (n m : ℕ) → n ≤ m → (if b then suc n else n) ≤ suc m
counted_bound b n m h = ground arith

or_left : (a b : Bool) → a ≡ true → (a || b) ≡ true
or_left a b h = rw h refl

or_right : (a b : Bool) → b ≡ true → (a || b) ≡ true
or_right true b h = refl
or_right false b h = h

module _ {World : Type 0} (client : Client World) (q : ℕ → Bool) where
  -- A number of cancelled orders beside the journal.
  record IsClean (u : ℕ × Journal World) : Type 0 where
    own : AllDeleted q u.1.0
    bounded : u.0 ≤ count u.1.0

  if-IsClean :
      (b : Bool) (u v : ℕ × Journal World)
      → (b ≡ true → IsClean u)
      → (b ≡ false → IsClean v)
      → IsClean (if b then u else v)
  if-IsClean true u v h k = h refl
  if-IsClean false u v h k = k refl

  cancel_one-IsClean :
      (client_prefix : String) (o : OrderDict) (id : Option ℕ) (n : ℕ) (sent : List Sent)
      (w : World)
      → ((j : ℕ) → carries client_prefix j (record o { order_id = id }) ≡ true → q j ≡ true)
      → IsClean (n, (sent, w))
      → IsClean
          (cancel_one (journaled client) client_prefix (record o { order_id = id }) n (sent, w))
  unfolding cancel_one cancel_order has_client_prefix
  cancel_one-IsClean client_prefix o none n sent w h c =
      if-IsClean (has_client_prefix client_prefix o.client_order_id) _ _ (λ e. c) (λ e. c)
  cancel_one-IsClean client_prefix o (some id) n sent w h c =
      if-IsClean (has_client_prefix client_prefix o.client_order_id) _ _
        (λ mine. record {
          own = (h id (rw mine (==_refl id)), c.own);
          bounded = counted_bound (is_cancelled (client.delete id w).0) n (count sent) c.bounded;
        })
        (λ other. c)

  cancel_all-IsClean :
      (client_prefix : String) (os : List OrderDict) (n : ℕ) (sent : List Sent) (w : World)
      → ((j : ℕ) → is_listed client_prefix os j ≡ true → q j ≡ true)
      → IsClean (n, (sent, w))
      → IsClean (cancel_all (journaled client) client_prefix os n (sent, w))
  unfolding cancel_all is_listed
  cancel_all-IsClean client_prefix [] n sent w h c = c
  cancel_all-IsClean client_prefix (o ∷ os) n sent w h c =
      let (counted, (sent', w')) = cancel_one (journaled client) client_prefix o n (sent, w) in
      cancel_all-IsClean client_prefix os counted sent' w' (λ j e. h j (or_right _ _ e))
        (cancel_one-IsClean client_prefix o o.order_id n sent w (λ j e. h j (or_left _ _ e)) c)

-- The cancelling of open sells deletes only ids of orders that the exchange lists for the market with
-- no closed status, and whose client order id starts with the prefix, if that is not empty. It posts
-- nothing, and the number it gives is at most that of the deletions.
pub cancel_open_sell_orders-AllDeleted :
    {World : Type 0} (client : Client World) (ticker : ℕ) (client_prefix : String) (w : World)
    → let (n, (sent, w')) =
        cancel_open_sell_orders (journaled client) ticker client_prefix ([], w) in
      AllDeleted (is_own ticker client_prefix (listed (client.get_orders ticker w).0)) sent
      × (n ≤ count sent)
unfolding cancel_open_sell_orders list_open_sell_orders
cancel_open_sell_orders-AllDeleted client ticker client_prefix w =
    let (r, w') = client.get_orders ticker w in
    let c =
      cancel_all-IsClean client (is_own ticker client_prefix (listed r)) client_prefix
        (open_orders ticker (listed r)) 0 [] w' (open_orders-own ticker client_prefix (listed r))
        (record { own = tt; bounded = omega arith }) in
    (c.own, c.bounded)
