-- ===== src/Market/Asks/Outliers.antt =====
-- A lone outlier at the top of the book does not decide the price.
use forecastology.Prelude.{◌≡◌, refl, ap, ◌∙◌, some, List, [], ◌∷◌, arith}
use forecastology.Prelude.Int.{ℤ, pos, ◌+ℤ◌, ◌<ℤ◌, int_laws, -ℤ_parts, +ℤ_parts}
use forecastology.Prelude.Counts.{All}
use forecastology.Market.Book.{OrderBookLevel, OrderBook}
use forecastology.Market.Asks.{member, distinct, ask_of, pick_ask, confirmed_ask, confirmed_bid}

-- Every level that holds a quantity asks more than `a`.
abbrev AsksAbove : ℤ → List OrderBookLevel → Type 0
AsksAbove a ls = All (λ l. pos 0 <ℤ l.quantity → a <ℤ ask_of l) ls

-- Two sets of seen values that the levels cannot tell apart.
abbrev Agree : List ℤ → List ℤ → List OrderBookLevel → Type 0
Agree s t ls = All (λ l. pos 0 <ℤ l.quantity → member (ask_of l) s ≡ member (ask_of l) t) ls

Agree-cons :
    (x : ℤ) (s t : List ℤ) (ls : List OrderBookLevel) → Agree s t ls → Agree (x ∷ s) (x ∷ t) ls
unfolding member
Agree-cons x s t [] h = tt
Agree-cons x s t (l ∷ ls) h = ((λ q. rw (h.0 q)), Agree-cons x s t ls h.1)

distinct-Agree :
    (s t : List ℤ) (ls : List OrderBookLevel)
    → Agree s t ls
    → distinct ask_of s ls ≡ distinct ask_of t ls
unfolding distinct
distinct-Agree s t [] h = refl
distinct-Agree s t (l ∷ ls) h = ground (
  arith,
  h.0,
  distinct-Agree s t ls h.1,
  distinct-Agree (ask_of l ∷ s) (ask_of l ∷ t) ls (Agree-cons (ask_of l) s t ls h.1),
)

above-Agree : (a : ℤ) (s : List ℤ) (ls : List OrderBookLevel) → AsksAbove a ls → Agree (a ∷ s) s ls
unfolding member
above-Agree a s [] h = tt
above-Agree a s (l ∷ ls) h = ((λ q. let apart = h.0 q in ground arith), above-Agree a s ls h.1)

distinct-above :
    (a : ℤ) (s : List ℤ) (ls : List OrderBookLevel)
    → AsksAbove a ls
    → All (λ v. a <ℤ v) (distinct ask_of s ls)
unfolding distinct
distinct-above a s [] h = tt
distinct-above a s (l ∷ ls) h =
    ground (arith, h.0, distinct-above a s ls h.1, distinct-above a (ask_of l ∷ s) ls h.1)

pick_ask-outlier :
    (top gap : ℤ) (rest : List ℤ)
    → pos 0 <ℤ gap
    → All (λ v. top +ℤ gap <ℤ v) rest
    → pick_ask gap (top ∷ rest) ≡ pick_ask (pos 0) rest
unfolding pick_ask
pick_ask-outlier top gap [] g h = ground arith
pick_ask-outlier top gap (n ∷ []) g h = ground (arith, -ℤ_parts n top, +ℤ_parts top gap)
pick_ask-outlier top gap (n ∷ m ∷ r) g h = ground (arith, -ℤ_parts n top, +ℤ_parts top gap)

AsksAbove-weaken :
    (a gap : ℤ) (ls : List OrderBookLevel) → pos 0 <ℤ gap → AsksAbove (a +ℤ gap) ls → AsksAbove a ls
AsksAbove-weaken a gap [] g h = tt
AsksAbove-weaken a gap (l ∷ ls) g h =
    ((λ q. let far = h.0 q in omega int_laws), AsksAbove-weaken a gap ls g h.1)

abbrev pub with_no_bids : OrderBook → List OrderBookLevel → OrderBook
with_no_bids ob ls = record ob { no_bids = ls }

distinct-outlier :
    (top : OrderBookLevel) (ls : List OrderBookLevel)
    → pos 0 <ℤ top.quantity
    → AsksAbove (ask_of top) ls
    → distinct ask_of [] (top ∷ ls) ≡ ask_of top ∷ distinct ask_of [] ls
unfolding distinct
distinct-outlier top ls q h =
    ground (arith, distinct-Agree (ask_of top ∷ []) [] ls (above-Agree (ask_of top) [] ls h))

-- With the guard on, a top NO bid whose ask lies more than the gap below every other live ask of
-- the book does not count: the confirmed ask is the best ask of the book without that bid, and
-- there is none if no other bid is live.
pub confirmed_ask-outlier :
    (ob : OrderBook) (top : OrderBookLevel) (ls : List OrderBookLevel) (gap : ℤ)
    → pos 0 <ℤ gap
    → pos 0 <ℤ top.quantity
    → AsksAbove (ask_of top +ℤ gap) ls
    → confirmed_ask (some (with_no_bids ob (top ∷ ls))) gap
      ≡ confirmed_ask (some (with_no_bids ob ls)) (pos 0)
unfolding confirmed_ask
confirmed_ask-outlier ob top ls gap g q h =
    ap (pick_ask gap) (distinct-outlier top ls q (AsksAbove-weaken (ask_of top) gap ls g h))
    ∙ pick_ask-outlier (ask_of top) gap (distinct ask_of [] ls) g
        (distinct-above (ask_of top +ℤ gap) [] ls h)

-- Unlike an ask, a lone bid of any price is confirmed, whatever the gap.
confirmed_bid-lone :
    (ob : OrderBook) (l : OrderBookLevel) (gap : ℤ)
    → pos 0 <ℤ l.quantity
    → confirmed_bid (some (record ob { yes_bids = l ∷ [] })) gap ≡ some (pos l.price)
unfolding confirmed_bid member
confirmed_bid-lone ob l gap q = ground arith
