-- ===== src/Freshness/Stability.antt =====
-- What observations make of the decision to fetch a slot again.
use evm_fork_cache.Prelude.{
  ℕ, suc, ◌+◌, ◌-◌, ◌<◌, ◌^◌, ◌≡◌, ap, ◌∙◌, inl, inr, false, not, ◌&&◌, ◌||◌, none, some, List, [],
  ◌∷◌, arith, ltb, ◌==◌, length, if◌then◌else◌, Option-cases,
}
use evm_fork_cache.Prelude.Eq.{pair_eq}
use evm_fork_cache.Prelude.Map.{get, get-insert, get-retain}
use evm_fork_cache.Word.{Address, U256}
use evm_fork_cache.Freshness.Observations.{
  Float, FreshnessParams, SlotObservation, SlotObservationTracker, observe_again, observe,
  refetch_observed, should_refetch, reset_contract, last_value,
}

-- An observation is what the slot's last value is, no other slot's is touched, and the result
-- tells whether a value was known and differed.
pub last_value-observe :
    (t : SlotObservationTracker) (a b : Address) (s u : U256) (value now : ℕ)
    → (last_value (observe t a s value now).0 b u
        ≡ (if (a == b) && (s == u) then some value else last_value t b u))
      × ((observe t a s value now).1
          ≡ elim (last_value t a s) [ none ↦ false | some old ↦ not (old == value) ])
unfolding last_value observe observe_again
last_value-observe t a b s u value now = elim (Option-cases (get (a, s) t.observations)) [
  | inl unseen ↦ (
    ground (
      arith,
      get-insert (a, s) (b, u)
          (record {
            last_seen = value;
            observation_count = 1;
            change_count = 0;
            last_checked = now;
            last_changed = 0;
          })
          t.observations,
    ),
    ground arith,
  )
  | inr (obs, seen) ↦ (
    ground (arith, get-insert (a, s) (b, u) (observe_again obs value now) t.observations),
    ground arith,
  )
]

-- Observations of one value at a list of clock values, and the last of these.
abbrev pub observe_all :
    SlotObservationTracker → Address → U256 → U256 → List ℕ → SlotObservationTracker
observe_all t a s value [] = t
observe_all t a s value (now ∷ times) = observe_all (observe t a s value now).0 a s value times

abbrev pub last_of : ℕ → List ℕ → ℕ
last_of first [] = first
last_of first (now ∷ times) = last_of now times

-- a slot that was seen `n` times, last at `at`, always with one value
abbrev steady : U256 → ℕ → ℕ → SlotObservation
steady value n checked = record {
  last_seen = value;
  observation_count = n;
  change_count = 0;
  last_checked = checked;
  last_changed = 0;
}

observe_again-steady :
    (value n checked now : ℕ)
    → suc n < 2 ^ 32
    → observe_again (steady value n checked) value now ≡ steady value (suc n) now
unfolding observe_again
observe_again-steady value n checked now h = ground arith

get-observe :
    (t : SlotObservationTracker) (a : Address) (s : U256) (value n checked now : ℕ)
    → suc n < 2 ^ 32
    → get (a, s) t.observations ≡ some (steady value n checked)
    → get (a, s) (observe t a s value now).0.observations ≡ some (steady value (suc n) now)
unfolding observe
get-observe t a s value n checked now h seen =
    rw (seen, observe, observe_again-steady value n checked now h)
      (ground (arith, get-insert (a, s) (a, s) (steady value (suc n) now) t.observations))

get-observe_all :
    (t : SlotObservationTracker) (a : Address) (s : U256) (value n checked : ℕ) (times : List ℕ)
    → n + length times < 2 ^ 32
    → get (a, s) t.observations ≡ some (steady value n checked)
    → get (a, s) (observe_all t a s value times).observations
      ≡ some (steady value (n + length times) (last_of checked times))
get-observe_all t a s value n checked [] h seen =
    seen ∙ ap (λ m. some (steady value m checked)) (omega arith)
get-observe_all t a s value n checked (now ∷ times) h seen =
    get-observe_all (observe t a s value now).0 a s value (suc n) now times (omega arith)
      (get-observe t a s value n checked now (omega arith) seen)
    ∙ ap (λ m. some (steady value m (last_of now times))) (omega arith)

first_observe :
    (t : SlotObservationTracker) (a : Address) (s : U256) (value now : ℕ)
    → get (a, s) t.observations ≡ none
    → get (a, s) (observe t a s value now).0.observations ≡ some (steady value 1 now)
unfolding observe
first_observe t a s value now unseen =
    rw (unseen, observe)
      (ground (arith, get-insert (a, s) (a, s) (steady value 1 now) t.observations))

-- A slot that was first observed now, and fewer than `2 ^ 32` times, always with one value, is fetched
-- again exactly when the observations
-- are fewer than `min_observations`, or the last is more than `max_reuse` ago; the thresholds on
-- the rate of change play no part.
pub should_refetch-observe_all :
    (float : Float) (params : FreshnessParams float) (t : SlotObservationTracker) (a : Address)
    (s : U256) (value first now : ℕ) (times : List ℕ)
    → get (a, s) t.observations ≡ none
    → suc (length times) < 2 ^ 32
    → should_refetch float (observe_all t a s value (first ∷ times)) a s now params ≡ (
        ltb (suc (length times)) params.min_observations
        || ltb params.max_reuse (now - last_of first times))
unfolding should_refetch refetch_observed
should_refetch-observe_all float params t a s value first now times unseen h =
    let seen =
      get-observe_all (observe t a s value first).0 a s value 1 first times (omega arith)
        (first_observe t a s value first unseen) in
    rw (seen, should_refetch) (ground arith)

-- A reset of a contract forgets each of its slots, which are then fetched again, and no slot of
-- another contract.
pub should_refetch-reset_contract :
    (float : Float) (params : FreshnessParams float) (t : SlotObservationTracker) (a b : Address)
    (s : U256) (now : ℕ)
    → should_refetch float (reset_contract t a) b s now params
      ≡ ((b == a) || should_refetch float t b s now params)
unfolding should_refetch reset_contract
should_refetch-reset_contract float params t a b s now =
    ground (arith, get-retain (λ k. not (k.0 == a)) (b, s) t.observations)
