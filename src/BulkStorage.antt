-- ===== src/BulkStorage.antt =====
-- src/bulk_storage.rs: the configuration of the bulk storage fetcher, its packed words, and the plan
-- of its calls. The texts of errors are not modelled.
pub mod Words
pub mod Planning
pub mod Limits
pub mod Bundles
pub mod Calls
pub mod Fetch
pub mod Answers
pub mod Latch
pub mod Overlap
use evm_fork_cache.Prelude.{
  ℕ, ◌+◌, ◌-◌, ◌*◌, ◌/◌, ◌%◌, ◌^◌, Bool, true, false, not, ◌&&◌, ◌||◌, Option, none, some, List, [],
  ◌∷◌, ◌++◌, length, is_empty, ltb, leb, ◌==◌, map, if◌then◌else◌, get_or,
}
use evm_fork_cache.Prelude.Eq.{nat_eq, pair_eq}
use evm_fork_cache.Prelude.Map.{Map, get, insert, remove, contains_key}
use evm_fork_cache.Prelude.Chunks.{chunks, flat_map}
use evm_fork_cache.Word.{Address, U256}
use evm_fork_cache.Cache.Verify.{Key}

-- src/multicall.rs, `MULTICALL3_ADDRESS`
abbrev pub multicall3_address : Address
multicall3_address = 0xcA11bde05977b3631167028862bE2a173976CA11

abbrev pub Bytes : Type 0
Bytes = List ℕ

-- `enum CallDispatch`
pub data CallDispatch : Type 0 where
  per_call : CallDispatch
  call_many : CallDispatch

-- `struct BulkCallConfig`
pub record BulkCallConfig : Type 0 where
  pub max_slots_per_call : ℕ
  pub max_targets_per_call : ℕ
  pub max_concurrent_calls : ℕ
  pub point_read_threshold : ℕ
  pub pre_shanghai_extractor : Bool
  pub dispatch : CallDispatch
  pub max_slots_per_request : ℕ
  pub max_request_bytes : ℕ

-- `BulkCallConfig::default`
abbrev pub default_config : BulkCallConfig
default_config = record {
  max_slots_per_call = 10_000;
  max_targets_per_call = 250;
  max_concurrent_calls = 4;
  point_read_threshold = 2;
  pre_shanghai_extractor = false;
  dispatch = CallDispatch.per_call;
  max_slots_per_request = 25_000;
  max_request_bytes = 2_400_000;
}

-- `usize::max` and `usize::min`
abbrev pub max : ℕ → ℕ → ℕ
max a b = if leb a b then b else a

abbrev pub min : ℕ → ℕ → ℕ
min a b = if leb a b then a else b

abbrev pub json_rpc_envelope_reserve : ℕ
json_rpc_envelope_reserve = 512

abbrev pub json_hex_bytes_per_slot : ℕ
json_hex_bytes_per_slot = 64

-- `BulkCallConfig::normalized`; `saturating_sub` on `usize` stops at 0, the division is by 64, and
-- the sum is of constants
unfoldable pub normalized : BulkCallConfig → BulkCallConfig
normalized cfg =
    let byte_limited_slots =
      max ((cfg.max_request_bytes - json_rpc_envelope_reserve) / json_hex_bytes_per_slot) 1 in
    record cfg {
      max_slots_per_call = min (max cfg.max_slots_per_call 1) byte_limited_slots;
      max_targets_per_call = max cfg.max_targets_per_call 1;
      max_concurrent_calls = max cfg.max_concurrent_calls 1;
      max_slots_per_request = min (max cfg.max_slots_per_request 1) byte_limited_slots;
      max_request_bytes =
          max cfg.max_request_bytes (json_rpc_envelope_reserve + json_hex_bytes_per_slot);
    }

-- `(Address, Vec<U256>)`
abbrev pub Target : Type 0
Target = Address × List U256

-- `enum CallPlan`
pub data CallPlan : Type 0 where
  single : Address → List U256 → CallPlan
  multi : List Target → CallPlan

-- `targets.iter().map(|(_, s)| s.len()).sum()`
unfoldable pub slots_of_targets : List Target → ℕ
slots_of_targets [] = 0
slots_of_targets ((a, slots) ∷ targets) = length slots + slots_of_targets targets

-- `CallPlan::request_slot_count`
unfoldable pub request_slot_count : CallPlan → ℕ
request_slot_count (CallPlan.single target slots) = length slots
request_slot_count (CallPlan.multi targets) = slots_of_targets targets

-- `order` and `groups` of `plan_calls`
pub record Groups : Type 0 where
  pub order : List Address
  pub groups : Map Address (List U256)

-- `groups.entry(address).or_insert_with(|| { order.push(address); Vec::new() }).push(slot)`
unfoldable pub group_request : Groups → Key → Groups
group_request g (a, s) = record {
  order = if contains_key a g.groups then g.order else g.order ++ a ∷ [];
  groups = insert a (get_or (get a g.groups) [] ++ s ∷ []) g.groups;
}

unfoldable pub group_requests : Groups → List Key → Groups
group_requests g [] = g
group_requests g (k ∷ requests) = group_requests (group_request g k) requests

-- `plans` and `packable`
pub record Split : Type 0 where
  pub plans : List CallPlan
  pub packable : List Target

-- the body of the loop over an address's chunks
unfoldable pub split_chunk : ℕ → Address → Split → List U256 → Split
split_chunk max_slots a x chunk =
    if (length chunk == max_slots) || (a == multicall3_address)
    then record x { plans = x.plans ++ CallPlan.single a chunk ∷ [] }
    else record x { packable = x.packable ++ (a, chunk) ∷ [] }

unfoldable pub split_chunks : ℕ → Address → Split → List (List U256) → Split
split_chunks max_slots a x [] = x
split_chunks max_slots a x (chunk ∷ rest) =
    split_chunks max_slots a (split_chunk max_slots a x chunk) rest

-- The loop over `order`, which takes each group out of the map. An address without a group would
-- panic; `Planning.Grouped` says that each has one.
unfoldable pub split_groups : ℕ → List Address → Map Address (List U256) → Split → Split
split_groups max_slots [] groups x = x
split_groups max_slots (a ∷ order) groups x =
    let slots = get_or (get a groups) [] in
    split_groups max_slots order (remove a groups)
      (split_chunks max_slots a x (chunks max_slots slots))

-- `plans`, `current` and `current_slots` of the packing
pub record Packing : Type 0 where
  pub plans : List CallPlan
  pub current : List Target
  pub current_slots : ℕ

-- `flush`
unfoldable pub flush : List Target → List CallPlan → List CallPlan
flush [] plans = plans
flush ((target, slots) ∷ []) plans = plans ++ CallPlan.single target slots ∷ []
flush (x ∷ y ∷ current) plans = plans ++ CallPlan.multi (x ∷ y ∷ current) ∷ []

-- the body of the loop over `packable`
unfoldable pub pack : BulkCallConfig → Packing → Target → Packing
pack cfg p (a, slots) =
    let would_overflow =
      ltb cfg.max_slots_per_call (p.current_slots + length slots)
      || leb cfg.max_targets_per_call (length p.current) in
    let q : Packing =
      if not (is_empty p.current) && would_overflow
      then record { plans = flush p.current p.plans; current = []; current_slots = 0 }
      else p in
    record q {
      current_slots = q.current_slots + length slots;
      current = q.current ++ (a, slots) ∷ [];
    }

unfoldable pub pack_all : BulkCallConfig → Packing → List Target → Packing
pack_all cfg p [] = p
pack_all cfg p (x ∷ packable) = pack_all cfg (pack cfg p x) packable

-- `plan_calls`
unfoldable pub plan_calls : List Key → BulkCallConfig → List CallPlan
plan_calls requests cfg =
    let g = group_requests (record { order = []; groups = [] }) requests in
    let x =
      split_groups cfg.max_slots_per_call g.order g.groups (record { plans = []; packable = [] }) in
    let p = pack_all cfg (record { plans = x.plans; current = []; current_slots = 0 }) x.packable in
    flush p.current p.plans

-- `planned_call_count`
unfoldable pub planned_call_count : List Key → BulkCallConfig → ℕ
planned_call_count requests cfg = length (plan_calls requests (normalized cfg))

-- `requests`, `current` and `current_slots` of `group_plans_for_call_many`
pub record Bundling : Type 0 where
  pub requests : List (List CallPlan)
  pub current : List CallPlan
  pub current_slots : ℕ

-- the body of its loop
unfoldable pub bundle : ℕ → Bundling → CallPlan → Bundling
bundle max_slots b plan =
    let slots = request_slot_count plan in
    let c : Bundling =
      if not (is_empty b.current) && ltb max_slots (b.current_slots + slots)
      then record { requests = b.requests ++ b.current ∷ []; current = []; current_slots = 0 }
      else b in
    record c { current_slots = c.current_slots + slots; current = c.current ++ plan ∷ [] }

unfoldable pub bundle_all : ℕ → Bundling → List CallPlan → Bundling
bundle_all max_slots b [] = b
bundle_all max_slots b (plan ∷ plans) = bundle_all max_slots (bundle max_slots b plan) plans

-- `group_plans_for_call_many`
unfoldable pub group_plans_for_call_many : List CallPlan → ℕ → List (List CallPlan)
group_plans_for_call_many plans max_slots_per_request =
    let b =
      bundle_all max_slots_per_request (record { requests = []; current = []; current_slots = 0 })
        plans in
    if is_empty b.current then b.requests else b.requests ++ b.current ∷ []
