-- ===== src/Tests/Bulk.antt =====
-- One run of each result on bulk extraction, with big-endian words and a provider that answers each
-- single call with zeros.
use evm_fork_cache.Prelude.{
  ℕ, zero, suc, ◌+◌, ◌*◌, ◌/◌, ◌%◌, ◌^◌, ◌<◌, ◌≡◌, refl, ap, ◌∙◌, true, none, some, List, [], ◌∷◌,
  ◌++◌, arith, length, map, All,
}
use evm_fork_cache.Prelude.Eq.{pair_eq}
use evm_fork_cache.Prelude.Chunks.{count}
use evm_fork_cache.Cache.Account.{ok, err}
use evm_fork_cache.Cache.Verify.{Key, BlockId, StorageBatchFetchFn}
use evm_fork_cache.BulkStorage.{
  Bytes, BulkCallConfig, default_config, normalized, CallPlan, plan_calls,
  group_plans_for_call_many,
}
use evm_fork_cache.BulkStorage.Words.{
  WordBytes, pack_slots_calldata, decode_packed_values, decode_packed_values-pack_slots_calldata,
}
use evm_fork_cache.BulkStorage.Planning.{planned, count-plan_calls}
use evm_fork_cache.BulkStorage.Limits.{FitsRequest, plan_calls-FitsRequest}
use evm_fork_cache.BulkStorage.Bundles.{unbundled, IsRequest, group_plans-unbundled}
use evm_fork_cache.BulkStorage.Calls.{StorageFetchError, Row, Rpc}
use evm_fork_cache.BulkStorage.Answers.{keys, count-fetch_slots_bulk}
use evm_fork_cache.BulkStorage.Fetch.{
  fetch_slots_bulk, fallback_latched, new_status, fetcher, count_failure,
}
use evm_fork_cache.BulkStorage.Latch.{IsComplete, count-fetcher}
use evm_fork_cache.BulkStorage.Overlap.{Calls, Step, counted, done, then_step, Steps-latched}

abbrev digits : ℕ → ℕ → Bytes
digits zero x = []
digits (suc n) x = digits n (x / 256) ++ (x % 256) ∷ []

length-append_one : (xs : Bytes) (b : ℕ) → length (xs ++ b ∷ []) ≡ suc (length xs)
length-append_one [] b = refl
length-append_one (x ∷ xs) b = ap suc (length-append_one xs b)

length-digits : (n x : ℕ) → length (digits n x) ≡ n
length-digits zero x = refl
length-digits (suc n) x =
    length-append_one (digits n (x / 256)) (x % 256) ∙ ap suc (length-digits n (x / 256))

abbrev number_from : ℕ → Bytes → ℕ
number_from acc [] = acc
number_from acc (b ∷ bytes) = number_from (acc * 256 + b) bytes

number_from-append :
    (acc : ℕ) (xs : Bytes) (b : ℕ) → number_from acc (xs ++ b ∷ []) ≡ number_from acc xs * 256 + b
number_from-append acc [] b = refl
number_from-append acc (x ∷ xs) b = number_from-append (acc * 256 + x) xs b

div_lt : (x p : ℕ) → x < p * 256 → x / 256 < p
div_lt x p h = omega (arith, h)

number_from-digits : (n x : ℕ) → x < 256 ^ n → number_from 0 (digits n x) ≡ x
number_from-digits zero x h = omega (arith, h)
number_from-digits (suc n) x h =
    number_from-append 0 (digits n (x / 256)) (x % 256)
    ∙ omega (arith, number_from-digits n (x / 256) (div_lt x (256 ^ n) (ground (arith, h))))

abbrev words : WordBytes
words = record {
  to_be_bytes = λ x. digits 32 x;
  from_be_slice = λ bytes. number_from 0 bytes;
  length-to_be_bytes = λ x. length-digits 32 x;
  from_be_slice-to_be_bytes = λ x h. number_from-digits 32 x (omega (arith, h));
}

abbrev rpc : Rpc
rpc = record {
  words = words;
  abi_encode = λ calls. [];
  abi_decode_returns = λ response. none;
  multicall3_runtime_code = 96 ∷ [];
  eth_call = λ to input overrides block. some (map (λ byte. 0) input);
  eth_call_many = λ calls overrides number. none;
}

abbrev small_calls : BulkCallConfig
small_calls = record default_config { max_slots_per_call = 2; max_targets_per_call = 2 }

-- slot 5 of account 1 is asked for twice
abbrev requests : List Key
requests = (1, 5) ∷ (1, 6) ∷ (2, 5) ∷ (1, 5) ∷ []

abbrev zeros : StorageBatchFetchFn StorageFetchError
zeros asked block = map (λ k. (k, ok 0)) asked

zeros-IsComplete : IsComplete zeros
zeros-IsComplete asked block k = ap (count k) (keys-zeros asked)
  where
    keys-zeros : (asked : List Key) → keys (map (λ k. (k, ok 0)) asked) ≡ asked
    keys-zeros [] = refl
    keys-zeros (k ∷ asked) = ap (λ ks. k ∷ ks) (keys-zeros asked)

decode_packed_values-pack_slots_calldata_example :
    decode_packed_values words (pack_slots_calldata words (7 ∷ 300 ∷ [])) 2 ≡ some (7 ∷ 300 ∷ [])
decode_packed_values-pack_slots_calldata_example =
    decode_packed_values-pack_slots_calldata words (7 ∷ 300 ∷ []) 2 (omega arith, (omega arith, tt))

count-plan_calls_example :
    count (1, 5) (planned (plan_calls requests small_calls)) ≡ count (1, 5) requests
count-plan_calls_example = count-plan_calls requests small_calls (1, 5) (omega arith)

plan_calls-FitsRequest_example :
    All (FitsRequest (normalized small_calls)) (plan_calls requests (normalized small_calls))
plan_calls-FitsRequest_example = plan_calls-FitsRequest requests small_calls

abbrev plans : List CallPlan
plans = CallPlan.single 1 (5 ∷ 6 ∷ []) ∷ CallPlan.single 2 (5 ∷ []) ∷ []

group_plans-unbundled_example :
    (unbundled (group_plans_for_call_many plans 2) ≡ plans)
    × All (IsRequest 2) (group_plans_for_call_many plans 2)
group_plans-unbundled_example = group_plans-unbundled plans 2

count-fetch_slots_bulk_example :
    count (1, 5) (keys (fetch_slots_bulk rpc requests (BlockId.number 9) small_calls))
    ≡ count (1, 5) requests
count-fetch_slots_bulk_example =
    count-fetch_slots_bulk rpc requests (BlockId.number 9) small_calls (1, 5)

count-fetcher_example :
    count
      (1, 5)
      (keys (fetcher rpc true (some zeros) small_calls new_status requests (BlockId.number 9)).1)
    ≡ count (1, 5) requests
count-fetcher_example =
    count-fetcher rpc true small_calls (some zeros) zeros-IsComplete new_status requests
      (BlockId.number 9) (1, 5)

-- two attempts are under way, one of which fails, and the fetcher is latched
abbrev failed_row : Row
failed_row = ((1, 5), err StorageFetchError.provider)

abbrev latched_calls : Calls
latched_calls = record {
  status = record { consecutive_failures = 2; latch_threshold = 2 };
  in_flight = (failed_row ∷ []) ∷ [] ∷ [];
}

abbrev counted_calls : Calls
counted_calls = record {
  status = record { consecutive_failures = 3; latch_threshold = 2 };
  in_flight = [] ∷ [];
}

one_counted : Step small_calls latched_calls counted_calls
unfolding count_failure
one_counted = counted [] ([] ∷ []) (failed_row ∷ []) refl refl

is_latched : fallback_latched latched_calls.status ≡ true
unfolding fallback_latched
is_latched = refl

Steps-latched_example :
    (fallback_latched counted_calls.status ≡ true)
    × (fetcher rpc true
          (some zeros)
          small_calls
          counted_calls.status
          ((1, 5) ∷ [])
          (BlockId.number 10)
        ≡ (counted_calls.status, zeros ((1, 5) ∷ []) (BlockId.number 10)))
Steps-latched_example =
    Steps-latched small_calls rpc true zeros latched_calls counted_calls (1, 5) []
      (BlockId.number 10) (then_step one_counted (done counted_calls)) refl is_latched refl
