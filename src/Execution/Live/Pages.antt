-- ===== src/Execution/Live/Pages.antt =====
-- `get_fills` of the live executor on an exchange that serves a history of fills page by page.
use mathlib.Core.List.{append-nil, append_assoc}
use forecastology.Prelude.{
  ℕ, zero, suc, ◌+◌, ◌<◌, ◌≡◌, refl, ◌∙◌, ap, true, false, Option, none, some, List, [], ◌∷◌, ◌++◌,
  ◌==◌, if◌then◌else◌, get_or, arith,
}
use forecastology.Execution.Resting.Executor.{reply}
use forecastology.Execution.Live.Client.{Response, FillDict, FillsPage, Client}
use forecastology.Execution.Live.Listed.{has_more, after_page, fills_from, get_fills}

-- The exchange has the pages 0 to `last`. A cursor is the number of a page.
abbrev pub served : (ℕ → List FillDict) → ℕ → Option ℕ → Response FillsPage
served history last cursor =
    let k = get_or cursor 0 in
    record {
      status_code = 200;
      json =
          reply (record { fills = history k; cursor = if k == last then none else some (suc k) });
    }

abbrev pub serving : {World : Type 0} → (ℕ → List FillDict) → ℕ → Client World → Client World
serving history last client = record client {
  get_fills_page = λ ticker limit cursor w. (reply (served history last cursor), w);
}

-- The fills of `n` pages.
pub pages_from : (ℕ → List FillDict) → ℕ → ℕ → List FillDict
pages_from history k zero = []
pages_from history k (suc n) = history k ++ pages_from history (suc k) n

has_more-none : (fills : List FillDict) → has_more fills none ≡ false
unfolding has_more
has_more-none [] = refl
has_more-none (f ∷ fills) = refl

has_more-some :
    (fills : List FillDict) (j k : ℕ) → has_more fills (some j) ≡ has_more fills (some k)
unfolding has_more
has_more-some [] j k = refl
has_more-some (f ∷ fills) j k = refl

module _ {World : Type 0} (client : Client World) (history : ℕ → List FillDict) (last : ℕ)
    (ticker : Option ℕ) (limit : ℕ) where
  fills_from-served :
      (n pages k : ℕ) (cursor : Option ℕ) (out : List FillDict) (w : World)
      → ((j : ℕ) → j < last → has_more (history j) (some 0) ≡ true)
      → get_or cursor 0 ≡ k
      → k + n ≡ last
      → n < pages
      → fills_from (serving history last client) ticker limit pages cursor out w
        ≡ (reply (out ++ pages_from history k (suc n)), w)
  unfolding fills_from after_page pages_from
  fills_from-served n zero k cursor out w full at total enough = absurd (omega (arith))
  fills_from-served zero (suc pages) k cursor out w full at total enough =
      let here : (k == last) ≡ true = ground (arith, total) in
      rw (at, here, has_more-none (history k), append-nil) refl
  fills_from-served (suc n) (suc pages) k cursor out w full at total enough =
      let later : (k == last) ≡ false = ground (arith, total) in
      let more : has_more (history k) (some (suc k)) ≡ true =
        has_more-some (history k) (suc k) 0 ∙ full k (omega (arith, total)) in
      rw (at, later, more)
        (fills_from-served n pages (suc k) (some (suc k)) (out ++ history k) w full refl
            (omega (arith, total)) (omega (arith, enough))
          ∙ ap (λ fills. (reply fills, w)) (append_assoc out (history k) _))

-- Where every page but the last has fills, and the pages are no more than the limit on them,
-- `get_fills` gives the fills of all pages, in their order.
pub get_fills-pages_from :
    {World : Type 0} (client : Client World) (history : ℕ → List FillDict)
    (last max_pages limit : ℕ) (ticker : Option ℕ) (w : World)
    → ((j : ℕ) → j < last → has_more (history j) (some 0) ≡ true)
    → last < max_pages
    → get_fills (serving history last client) ticker limit max_pages w
      ≡ (reply (pages_from history 0 (suc last)), w)
unfolding get_fills
get_fills-pages_from client history last max_pages limit ticker w full enough =
    fills_from-served client history last ticker limit last max_pages 0 none [] w full refl
      (omega arith) enough
