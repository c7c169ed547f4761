-- ===== src/Strategy/Dedupe.antt =====
-- `DedupeLogger` of core/log_dedupe.py. A scope (event, key and day) and the fields of a message are
-- numbers, `fingerprint` is the normal form of fields, and times count the clock's units.
use forecastology.Prelude.{
  ℕ, suc, ◌+◌, ◌≡◌, Option, none, some, List, [], ◌∷◌, ◌++◌, Dict, lookup, insert, ltb, ◌==◌,
  if◌then◌else◌, arith, Option-cases, inl, inr, not,
}
use forecastology.Prelude.Counts.{length}
use forecastology.Prelude.Totals.{total, total-insert_new, total-insert_over}

pub record DedupeState : Type 0 where
  pub fingerprint : ℕ
  pub last_fields : ℕ
  pub suppressed_count : ℕ
  pub last_summary : ℕ

-- A line of the log: the message itself, or `.repeated` with a count and the fields.
pub data Emission : Type 0 where
  direct : ℕ → Emission
  repeated : ℕ → ℕ → Emission

-- A call of `log`, with the time at which it is made.
pub record Message : Type 0 where
  pub now : ℕ
  pub scope : ℕ
  pub fields : ℕ

abbrev fresh_state : ℕ → Message → DedupeState
fresh_state print m = record {
  fingerprint = print;
  last_fields = m.fields;
  suppressed_count = 0;
  last_summary = m.now;
}

-- What is still suppressed is reported before a message that differs.
unfoldable flush : DedupeState → List Emission → List Emission
flush s rest =
    if ltb 0 s.suppressed_count then repeated s.suppressed_count s.last_fields ∷ rest else rest

-- A message like the last one of its scope.
unfoldable suppress : ℕ → Message → DedupeState → DedupeState × List Emission
suppress interval m s =
    if ltb m.now (s.last_summary + interval)
    then (record s { suppressed_count = s.suppressed_count + 1 }, [])
    else (
      record s { suppressed_count = 0; last_summary = m.now },
      repeated (s.suppressed_count + 1) s.last_fields ∷ [],
    )

module _ (fingerprint : ℕ → ℕ) (interval : ℕ) where
  unfoldable log_found : Option DedupeState → Message → DedupeState × List Emission
  unfolding flush suppress
  log_found none m = (fresh_state (fingerprint m.fields) m, direct m.fields ∷ [])
  log_found (some s) m =
      if not (s.fingerprint == fingerprint m.fields)
      then (fresh_state (fingerprint m.fields) m, flush s (direct m.fields ∷ []))
      else suppress interval m s

  unfoldable pub log : Message → Dict DedupeState → Dict DedupeState × List Emission
  unfolding log_found
  log m states =
      let (s, lines) = log_found (lookup m.scope states) m in (insert m.scope s states, lines)

  -- The messages one after the other, from a new logger on.
  pub log_all : List Message → Dict DedupeState → Dict DedupeState × List Emission
  unfolding log
  log_all [] states = (states, [])
  log_all (m ∷ ms) states =
      let (middle, lines) = log m states in
      let (final, later) = log_all ms middle in (final, lines ++ later)

-- The messages that a line accounts for.
abbrev accounted_by : Emission → ℕ
accounted_by (direct fields) = 1
accounted_by (repeated count fields) = count

abbrev pub accounted : List Emission → ℕ
accounted [] = 0
accounted (e ∷ es) = accounted_by e + accounted es

abbrev pending_in : DedupeState → ℕ
pending_in s = s.suppressed_count

-- The messages that no line accounts for yet.
abbrev pub pending : Dict DedupeState → ℕ
pending states = total pending_in states

accounted-append : (es fs : List Emission) → accounted (es ++ fs) ≡ accounted es + accounted fs
accounted-append [] fs = omega arith
accounted-append (e ∷ es) fs = omega (arith, accounted-append es fs)

module _ (fingerprint : ℕ → ℕ) (interval : ℕ) where
  log_found-new :
      (m : Message)
      → let (s, lines) = log_found fingerprint interval none m in accounted lines + pending_in s ≡ 1
  unfolding log_found
  log_found-new m = omega arith

  log_found-known :
      (s : DedupeState) (m : Message)
      → let (s', lines) = log_found fingerprint interval (some s) m in
        accounted lines + pending_in s' ≡ suc (pending_in s)
  unfolding log_found flush suppress
  log_found-known s m = ground arith

  log-accounted :
      (m : Message) (states : Dict DedupeState)
      → let (states', lines) = log fingerprint interval m states in
        accounted lines + pending states' ≡ suc (pending states)
  unfolding log
  log-accounted m states = elim (Option-cases (lookup m.scope states)) [
    | inl absent ↦ rw absent (
        let entry = log_found-new m in
        let sum =
          total-insert_new pending_in m.scope (log_found fingerprint interval none m).0 states
            absent in
        omega arith)
    | inr (s, e) ↦ rw e (
        let entry = log_found-known s m in
        let sum =
          total-insert_over pending_in m.scope (log_found fingerprint interval (some s) m).0 s
            states e in
        omega arith)
  ]

  log_all-accounted_from :
      (ms : List Message) (states : Dict DedupeState)
      → let (final, lines) = log_all fingerprint interval ms states in
        accounted lines + pending final ≡ length ms + pending states
  unfolding log_all
  log_all-accounted_from [] states = omega arith
  log_all-accounted_from (m ∷ ms) states =
      let one = log fingerprint interval m states in
      let here = log-accounted m states in
      let later = log_all-accounted_from ms one.0 in
      let both = accounted-append one.1 (log_all fingerprint interval ms one.0).1 in omega arith

  -- No message is lost or counted twice: after any sequence of messages to a new logger, the direct
  -- lines, the counts of the `.repeated` lines and what is still suppressed add up to the number of
  -- messages.
  pub log_all-accounted :
      (ms : List Message)
      → let (final, lines) = log_all fingerprint interval ms [] in
        accounted lines + pending final ≡ length ms
  unfolding total
  log_all-accounted ms = let all = log_all-accounted_from ms [] in omega arith
