-- ===== src/BulkStorage/Overlap.antt =====
-- src/bulk_storage.rs: the latch of a fetcher with a fallback, whose calls may overlap. A call loads
-- the counter when it begins, and where it is not routed to the fallback it stores to the counter
-- when its results are there; these are atomic steps of their own.
use evm_fork_cache.Prelude.{
  ◌≡◌, refl, ap, ◌∙◌, Bool, true, false, ◌||◌, some, List, [], ◌∷◌, ◌++◌, arith, any_by,
}
use evm_fork_cache.Cache.Verify.{Key, BlockId, StorageBatchFetchFn}
use evm_fork_cache.BulkStorage.{BulkCallConfig}
use evm_fork_cache.BulkStorage.Calls.{StorageFetchError, Row, Rpc}
use evm_fork_cache.BulkStorage.Fetch.{
  BulkFetcherStatus, is_ok, routes_to_fallback, fetcher, count_failure, override_failure_latch,
  fallback_latched,
}

-- The counter, and the results of the bulk attempts that have not been counted yet.
pub record Calls : Type 0 where
  pub status : BulkFetcherStatus
  pub in_flight : List (List Row)

-- One atomic step of the calls of a fetcher. Nothing is said of an attempt's results: the provider may
-- answer each call differently.
pub data Step (cfg : BulkCallConfig) (p q : Calls) : Type 0 where
  routed :
      (k : Key) (requests : List Key)
      → routes_to_fallback cfg p.status (k ∷ requests) ≡ true
      → q ≡ p
      → Step cfg p q
  attempted :
      (k : Key) (requests : List Key) (results : List Row)
      → routes_to_fallback cfg p.status (k ∷ requests) ≡ false
      → q ≡ record p { in_flight = results ∷ p.in_flight }
      → Step cfg p q
  counted :
      (before after : List (List Row)) (results : List Row)
      → p.in_flight ≡ before ++ results ∷ after
      → q ≡ record { status = count_failure p.status results; in_flight = before ++ after }
      → Step cfg p q

-- any steps, one after the other
pub data Steps (cfg : BulkCallConfig) : Calls → Calls → Type 0 where
  done : (p : Calls) → Steps cfg p p
  then_step : {p q r : Calls} → Step cfg p q → Steps cfg q r → Steps cfg p r

-- an attempt that would reset the counter is under way
abbrev pub has_success : List (List Row) → Bool
has_success in_flight = any_by (any_by is_ok) in_flight

has_success-middle :
    (before after : List (List Row)) (results : List Row)
    → has_success (before ++ results ∷ after)
      ≡ (any_by is_ok results || has_success (before ++ after))
has_success-middle [] after results = refl
has_success-middle (x ∷ before) after results =
    ground (arith, has_success-middle before after results)

-- latched, and nothing under way resets it
abbrev Stuck : Calls → Type 0
Stuck p =
    (p.status.latch_threshold ≡ override_failure_latch)
    × (fallback_latched p.status ≡ true)
    × (has_success p.in_flight ≡ false)

module _ (cfg : BulkCallConfig) where
  latched-routes :
      (s : BulkFetcherStatus) (requests : List Key)
      → s.latch_threshold ≡ override_failure_latch
      → fallback_latched s ≡ true
      → routes_to_fallback cfg s requests ≡ true
  unfolding fallback_latched routes_to_fallback
  latched-routes s requests two on = ground (arith, two, on)

  count_failure-latched :
      (s : BulkFetcherStatus) (results : List Row)
      → any_by is_ok results ≡ false
      → fallback_latched s ≡ true
      → ((count_failure s results).latch_threshold ≡ s.latch_threshold)
        × (fallback_latched (count_failure s results) ≡ true)
  unfolding count_failure fallback_latched
  count_failure-latched s results none_ok on =
      (ground (arith, none_ok), ground (arith, none_ok, on))

  Step-Stuck : (p q : Calls) → Step cfg p q → Stuck p → Stuck q
  Step-Stuck p q (routed k requests direct same) h = rw same h
  Step-Stuck p q (attempted k requests results bulk same) (two, on, clean) =
      absurd (ground (arith, bulk, latched-routes p.status (k ∷ requests) two on))
  Step-Stuck p q (counted before after results found same) (two, on, clean) =
      let split : has_success p.in_flight
          ≡ (any_by is_ok results || has_success (before ++ after)) =
        ap has_success found ∙ has_success-middle before after results in
      let kept = count_failure-latched p.status results (ground (arith, split, clean)) on in
      rw same (kept.0 ∙ two, kept.1, ground (arith, split, clean))

  Steps-Stuck : (p q : Calls) → Steps cfg p q → Stuck p → Stuck q
  Steps-Stuck p q (done _) h = h
  Steps-Stuck p q (then_step {q = m} first rest) h = Steps-Stuck m q rest (Step-Stuck p m first h)

  -- Once the fetcher is latched and no attempt with a success is under way, no steps of any calls, in
  -- any order and whatever the provider answers, unlatch it, and after them a request of some slots
  -- is answered by the fallback, without an attempt.
  pub Steps-latched :
      (rpc : Rpc) (has_runtime : Bool) (back : StorageBatchFetchFn StorageFetchError) (p q : Calls)
      (k : Key) (requests : List Key) (block : BlockId)
      → Steps cfg p q
      → p.status.latch_threshold ≡ override_failure_latch
      → fallback_latched p.status ≡ true
      → has_success p.in_flight ≡ false
      → (fallback_latched q.status ≡ true)
        × (fetcher rpc has_runtime (some back) cfg q.status (k ∷ requests) block
            ≡ (q.status, back (k ∷ requests) block))
  unfolding fetcher
  Steps-latched rpc has_runtime back p q k requests block steps two on clean =
      let (still, latched, none_left) = Steps-Stuck p q steps (two, on, clean) in
      (latched, ground (arith, latched-routes q.status (k ∷ requests) still latched))
