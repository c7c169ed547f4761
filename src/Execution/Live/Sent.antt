-- ===== src/Execution/Live/Sent.antt =====
-- What the live executor sends: a client that keeps a journal of the orders it posts and deletes, and
-- the proof that reads leave the journal as it is.
use forecastology.Prelude.{
  ℕ, zero, suc, ◌+◌, ◌≡◌, refl, Bool, true, false, Option, none, some, List, [], ◌∷◌, ◌++◌, Dict,
  ltb, ◌==◌, ◌&&◌, if◌then◌else◌, arith, inl, inr, ◌⊎◌, ap, ◌∙◌,
}
use forecastology.Prelude.Int.{pos_part}
use forecastology.Execution.Orders.{OrderRequest}
use forecastology.Execution.Resting.Executor.{Reply, reply, raised}
use forecastology.Execution.Live.Client.{PositionDict, FillDict, Payload, Client, Live}
use forecastology.Execution.Live.Listed.{
  Page, stopped, broken, page, page_of, after_page, fills_from, get_fills,
}
use forecastology.Execution.Live.Positions.{
  Position, count_of, listed_cost, average_of, cost_of, read_position, read_positions, positions_of,
  and_then, or_again, pause, get_positions, read_count, position_attempts, current_position_qty,
}
use forecastology.Execution.Live.Trading.{held_before}

Reply-cases {ℓ} : {A : Type ℓ} (r : Reply A) → (r ≡ raised) ⊎ ((a : A) × (r ≡ reply a))
Reply-cases raised = inl refl
Reply-cases (reply a) = inr (a, refl)

pub data Sent : Type 0 where
  posted : Payload → Sent
  deleted : ℕ → Sent

-- The latest first.
abbrev pub Journal : Type 0 → Type 0
Journal World = List Sent × World

-- A read, with the journal as it was.
abbrev pub beside {ℓ} : {R : Type ℓ} {World : Type 0} → List Sent → R × World → R × Journal World
beside sent u = (u.0, (sent, u.1))

abbrev pub journaled : {World : Type 0} → Client World → Client (Journal World)
journaled client = record {
  post = λ p j. beside (posted p ∷ j.0) (client.post p j.1);
  delete = λ id j. beside (deleted id ∷ j.0) (client.delete id j.1);
  get_order = λ id j. beside j.0 (client.get_order id j.1);
  get_orders = λ ticker j. beside j.0 (client.get_orders ticker j.1);
  get_fills_page =
      λ ticker limit cursor j. beside j.0 (client.get_fills_page ticker limit cursor j.1);
  get_positions_page = λ j. beside j.0 (client.get_positions_page j.1);
  get_balance_body = λ j. beside j.0 (client.get_balance_body j.1);
  sleep = λ ms j. (j.0, client.sleep ms j.1);
  uuid_hex = λ j. client.uuid_hex j.1;
}

module _ {World : Type 0} (client : Client World) (sent : List Sent) where
  after_page-journaled :
      (rest : Option ℕ → List FillDict → World → Reply (List FillDict) × World)
      (rest' : Option ℕ → List FillDict → Journal World → Reply (List FillDict) × Journal World)
      (h : (next : Option ℕ) (out : List FillDict) (w : World)
        → rest' next out (sent, w) ≡ beside sent (rest next out w))
      (p : Page) (out : List FillDict) (w : World)
      → after_page rest' p out (sent, w) ≡ beside sent (after_page rest p out w)
  unfolding after_page
  after_page-journaled rest rest' h stopped out w = refl
  after_page-journaled rest rest' h broken out w = refl
  after_page-journaled rest rest' h (page fills next) out w =
      ground (arith, h next (out ++ fills) w)

  fills_from-journaled :
      (ticker : Option ℕ) (limit pages : ℕ) (cursor : Option ℕ) (out : List FillDict) (w : World)
      → fills_from (journaled client) ticker limit pages cursor out (sent, w)
        ≡ beside sent (fills_from client ticker limit pages cursor out w)
  unfolding fills_from
  fills_from-journaled ticker limit zero cursor out w = refl
  fills_from-journaled ticker limit (suc pages) cursor out w =
      let (r, w') = client.get_fills_page ticker limit cursor w in
      after_page-journaled (fills_from client ticker limit pages)
        (fills_from (journaled client) ticker limit pages) (fills_from-journaled ticker limit pages)
        (page_of r) out w'

  if-beside :
      {R : Type 0} (b : Bool) (u v : R × World)
      → (if b then beside sent u else beside sent v) ≡ beside sent (if b then u else v)
  if-beside true u v = refl
  if-beside false u v = refl

  cost_of-journaled :
      (ticker : ℕ) (p : PositionDict) (w : World)
      → cost_of (journaled client) ticker p (sent, w) ≡ beside sent (cost_of client ticker p w)
  unfolding cost_of get_fills
  cost_of-journaled ticker p w =
      let (fills, w') = fills_from client (some ticker) 200 25 none [] w in
      rw (fills_from-journaled (some ticker) 200 25 none [] w) (
        if-beside (listed_cost p == 0 && ltb 0 (pos_part (count_of p)))
          (average_of ticker fills, w') (reply (listed_cost p), w))

  and_then-beside :
      {A B : Type 0} (step : A → World → Reply B × World)
      (step' : A → Journal World → Reply B × Journal World)
      (h : (a : A) (w : World) → step' a (sent, w) ≡ beside sent (step a w)) (u : Reply A × World)
      → and_then step' (beside sent u) ≡ beside sent (and_then step u)
  unfolding and_then
  and_then-beside step step' h (raised, w) = refl
  and_then-beside step step' h (reply a, w) = h a w

  or_again-beside :
      (again : World → Option ℕ × World) (again' : Journal World → Option ℕ × Journal World)
      (h : (w : World) → again' (sent, w) ≡ beside sent (again w)) (u : Option ℕ × World)
      → or_again again' (beside sent u) ≡ beside sent (or_again again u)
  unfolding or_again
  or_again-beside again again' h (none, w) = h w
  or_again-beside again again' h (some n, w) = refl

  listed-journaled :
      (p : PositionDict) (ticker : Option ℕ) (positions : Dict Position) (w : World)
      → read_position (journaled client) (record p { ticker = ticker }) positions (sent, w)
        ≡ beside sent (read_position client (record p { ticker = ticker }) positions w)
  unfolding read_position
  listed-journaled p none positions w = refl
  listed-journaled p (some ticker) positions w =
      let q : PositionDict = record p { ticker = some ticker } in
      rw (cost_of-journaled ticker q w)
        (and_then-beside _ _ (λ cost w'. refl) (cost_of client ticker q w))

  read_positions-journaled :
      (ps : List PositionDict) (positions : Dict Position) (w : World)
      → read_positions (journaled client) ps positions (sent, w)
        ≡ beside sent (read_positions client ps positions w)
  unfolding read_positions
  read_positions-journaled [] positions w = refl
  read_positions-journaled (p ∷ ps) positions w =
      ap (and_then (read_positions (journaled client) ps)) (listed-journaled p p.ticker positions w)
      ∙ and_then-beside (read_positions client ps) (read_positions (journaled client) ps)
          (read_positions-journaled ps) (read_position client p positions w)

  get_positions-journaled :
      (w : World)
      → get_positions (journaled client) (sent, w) ≡ beside sent (get_positions client w)
  unfolding get_positions
  get_positions-journaled w =
      let (r, w') = client.get_positions_page w in
      and_then-beside (λ ps. read_positions client ps [])
        (λ ps. read_positions (journaled client) ps []) (λ ps. read_positions-journaled ps [])
        (positions_of r, w')

  pause-journaled :
      (left wait : ℕ) (w : World)
      → pause (journaled client) left wait (sent, w) ≡ (sent, pause client left wait w)
  unfolding pause
  pause-journaled left wait w = ground arith

  position_attempts-journaled :
      (left wait ticker : ℕ) (w : World)
      → position_attempts (journaled client) left wait ticker (sent, w)
        ≡ beside sent (position_attempts client left wait ticker w)
  unfolding position_attempts
  position_attempts-journaled zero wait ticker w = refl
  position_attempts-journaled (suc left) wait ticker w =
      let (positions, w') = get_positions client w in
      ap
        (λ u.
          or_again
            (λ j.
              position_attempts (journaled client) left (wait + 100) ticker
                (pause (journaled client) left wait j))
            (read_count ticker u.0, u.1))
        (get_positions-journaled w)
      ∙ or_again-beside
          (λ v. position_attempts client left (wait + 100) ticker (pause client left wait v)) _
          (λ v.
            ap (position_attempts (journaled client) left (wait + 100) ticker)
              (pause-journaled left wait v)
            ∙ position_attempts-journaled left (wait + 100) ticker (pause client left wait v))
          (read_count ticker positions, w')

  pub held_before-journaled :
      (live : Live) (order : OrderRequest) (w : World)
      → held_before (journaled client) live order (sent, w)
        ≡ beside sent (held_before client live order w)
  unfolding held_before current_position_qty
  held_before-journaled live order w =
      rw (position_attempts-journaled 3 100 order.market_ticker w) refl
