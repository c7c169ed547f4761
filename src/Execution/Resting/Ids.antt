-- ===== src/Execution/Resting/Ids.antt =====
-- Client order ids: `ensure_app_client_order_id` of core/types.py and the ids by which the managers
-- of resting sells know their own orders. `hex` is a fresh `uuid.uuid4().hex`, or its first part.
use Prim.Native.String.{String, ◌++◌}
use Prim.Native.Char.{Char, code}
use text.Mathlib.Text.{starts_with, ◌==◌ as str_eq}
use text.Mathlib.TextEquality.{eq_iff, starts_with_iff}
use forecastology.Prelude.{
  ◌≡◌, refl, inl, inr, Bool, true, false, ◌||◌, if◌then◌else◌, ◌==◌, arith, Bool-cases,
}

unfoldable pub ensure_app_client_order_id : String → String → String
ensure_app_client_order_id id hex =
    if str_eq id "" then "APP_" ++ hex else if starts_with id "APP_" then id else "APP_" ++ id

abbrev underscore : Char → Char
underscore c = if code c == b'-' || code c == b'.' then "_" else c

-- `ticker.replace("-", "_").replace(".", "_")`
unfoldable sanitize : String → String
sanitize String.[] = String.[]
sanitize (String.◌∷◌ c s) = String.◌∷◌ (underscore c) (sanitize s)

unfoldable backstop_client_order_id : String → String → String
unfolding sanitize
backstop_client_order_id ticker hex = "APP_BSP_" ++ (sanitize ticker ++ ("_" ++ hex))

unfoldable is_backstop_client_order_id : String → Bool
is_backstop_client_order_id id = starts_with id "APP_BSP_"

unfoldable profit_take_client_order_id : String → String → String
unfolding sanitize
profit_take_client_order_id ticker hex = "APP_PTS_" ++ (sanitize ticker ++ ("_" ++ hex))

unfoldable pub is_profit_take_client_order_id : String → Bool
is_profit_take_client_order_id id = starts_with id "APP_PTS_"

starts-append : (s t : String) → starts_with (s ++ t) s ≡ true
starts-append s t = (starts_with_iff (s ++ t) s).1 (t, refl)

-- An id with the prefix is not empty.
ensure_prefixed :
    (id hex : String) → starts_with id "APP_" ≡ true → ensure_app_client_order_id id hex ≡ id
unfolding ensure_app_client_order_id
ensure_prefixed id hex h = elim (Bool-cases (str_eq id "")) [
  | inl none_given ↦
      let empty : id ≡ "" = (eq_iff id "").0 none_given in
      let clash : false ≡ true = rw empty at h in absurd (ground (arith, clash))
  | inr given ↦ rw (given, h)
]

ensure_starts : (id hex : String) → starts_with (ensure_app_client_order_id id hex) "APP_" ≡ true
unfolding ensure_app_client_order_id
ensure_starts id hex = elim (Bool-cases (str_eq id "")) [
  | inl none_given ↦ rw none_given (starts-append "APP_" hex)
  | inr given ↦ elim (Bool-cases (starts_with id "APP_")) [
    | inl prefixed ↦ rw (given, prefixed) prefixed
    | inr bare ↦ rw (given, bare) (starts-append "APP_" id)
  ]
]

-- Every id that the app makes carries its prefix, and making one from it again changes nothing.
pub ensure_app_client_order_id_idem :
    (id hex hex' : String)
    → let made = ensure_app_client_order_id id hex in
      (starts_with made "APP_" ≡ true) × (ensure_app_client_order_id made hex' ≡ made)
ensure_app_client_order_id_idem id hex hex' =
    let made = ensure_app_client_order_id id hex in
    (ensure_starts id hex, ensure_prefixed made hex' (ensure_starts id hex))

-- Each manager knows the ids that it makes, whatever the ticker and the random part.
client_order_ids_known :
    (ticker hex : String)
    → (is_backstop_client_order_id (backstop_client_order_id ticker hex) ≡ true)
      × (is_profit_take_client_order_id (profit_take_client_order_id ticker hex) ≡ true)
unfolding backstop_client_order_id profit_take_client_order_id is_backstop_client_order_id
    is_profit_take_client_order_id
client_order_ids_known ticker hex = (starts-append "APP_BSP_" _, starts-append "APP_PTS_" _)
