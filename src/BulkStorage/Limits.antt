-- ===== src/BulkStorage/Limits.antt =====
-- src/bulk_storage.rs: the bounds of the planned calls.
use evm_fork_cache.Prelude.{
  ℕ, ◌+◌, ◌*◌, ◌≤◌, ◌≡◌, refl, false, not, ◌&&◌, ◌||◌, List, [], ◌∷◌, ◌++◌, arith, length,
  length-append, is_empty, ltb, leb, ◌==◌, get_or, inl, inr, Bool-cases, All, All-append,
}
use evm_fork_cache.Prelude.Eq.{nat_eq}
use evm_fork_cache.Prelude.Map.{Map, get, remove}
use evm_fork_cache.Prelude.Chunks.{chunks, chunks-IsChunk, IsChunk}
use evm_fork_cache.Word.{Address, U256}
use evm_fork_cache.Cache.Verify.{Key}
use evm_fork_cache.BulkStorage.{
  multicall3_address, BulkCallConfig, json_rpc_envelope_reserve, json_hex_bytes_per_slot,
  normalized, Target, CallPlan, slots_of_targets, request_slot_count, group_requests, Split,
  split_chunk, split_chunks, split_groups, Packing, flush, pack, pack_all, plan_calls,
}

-- A target that may share a call: never the dispatcher, with slots for one call.
abbrev pub IsPackable : ℕ → Target → Type 0
IsPackable n x = ((x.0 == multicall3_address) ≡ false) × IsChunk n x.1

-- A call within the budgets of the configuration.
abbrev pub Fits : BulkCallConfig → CallPlan → Type 0
Fits cfg (CallPlan.single a slots) = IsChunk cfg.max_slots_per_call slots
Fits cfg (CallPlan.multi targets) =
    (2 ≤ length targets)
    × (length targets ≤ cfg.max_targets_per_call)
    × (slots_of_targets targets ≤ cfg.max_slots_per_call)
    × All (IsPackable cfg.max_slots_per_call) targets

slots_of_targets-snoc :
    (targets : List Target) (a : Address) (slots : List U256)
    → slots_of_targets (targets ++ (a, slots) ∷ []) ≡ slots_of_targets targets + length slots
unfolding slots_of_targets
slots_of_targets-snoc [] a slots = omega arith
slots_of_targets-snoc ((b, more) ∷ targets) a slots =
    omega (arith, slots_of_targets-snoc targets a slots)

module _ (cfg : BulkCallConfig) where
  abbrev AllFit : List CallPlan → Type 0
  AllFit plans = All (Fits cfg) plans

  abbrev AllPackable : List Target → Type 0
  AllPackable targets = All (IsPackable cfg.max_slots_per_call) targets

  AllFit-snoc :
      (plans : List CallPlan) (plan : CallPlan)
      → AllFit plans
      → Fits cfg plan
      → AllFit (plans ++ plan ∷ [])
  AllFit-snoc plans plan h f = All-append (Fits cfg) plans (plan ∷ []) h (f, tt)

  flush-AllFit :
      (current : List Target) (plans : List CallPlan)
      → AllFit plans
      → AllPackable current
      → slots_of_targets current ≤ cfg.max_slots_per_call
      → length current ≤ cfg.max_targets_per_call
      → AllFit (flush current plans)
  unfolding flush
  flush-AllFit [] plans h packable slots targets = h
  flush-AllFit ((a, slots) ∷ []) plans h packable total targets =
      AllFit-snoc plans (CallPlan.single a slots) h packable.0.1
  flush-AllFit (x ∷ y ∷ current) plans h packable slots targets =
      AllFit-snoc plans (CallPlan.multi (x ∷ y ∷ current)) h (omega arith, targets, slots, packable)

  abbrev IsPacked : Packing → Type 0
  IsPacked p =
      AllFit p.plans
      × AllPackable p.current
      × (p.current_slots ≡ slots_of_targets p.current)
      × (p.current_slots ≤ cfg.max_slots_per_call)
      × (length p.current ≤ cfg.max_targets_per_call)

  pack-IsPacked :
      (p : Packing) (x : Target)
      → 1 ≤ cfg.max_targets_per_call
      → IsPackable cfg.max_slots_per_call x
      → IsPacked p
      → IsPacked (pack cfg p x)
  unfolding pack slots_of_targets
  pack-IsPacked p (a, slots) one packable (fit, all, total, few, short) =
      elim (Bool-cases (
        not (is_empty p.current)
        && (ltb cfg.max_slots_per_call (p.current_slots + length slots)
            || leb cfg.max_targets_per_call (length p.current)))) [
              | inl full ↦ rw full (
                flush-AllFit p.current p.plans fit all (omega (arith, total, few)) short,
                (packable, tt),
                omega arith,
                omega (arith, packable.1),
                one,
              )
              | inr room ↦ rw room (
                fit,
                All-append (IsPackable cfg.max_slots_per_call) p.current ((a, slots) ∷ []) all
                    (packable, tt),
                omega (arith, total, slots_of_targets-snoc p.current a slots),
                within p.current total room,
                fewer p.current room,
              )
            ]
    where
      within :
          (current : List Target)
          → p.current_slots ≡ slots_of_targets current
          → (not (is_empty current)
              && (ltb cfg.max_slots_per_call (p.current_slots + length slots)
                  || leb cfg.max_targets_per_call (length current)))
            ≡ false
          → p.current_slots + length slots ≤ cfg.max_slots_per_call
      within [] same room = omega (arith, same, packable.1)
      within (y ∷ current) same room = ground (arith, room)

      fewer :
          (current : List Target)
          → (not (is_empty current)
              && (ltb cfg.max_slots_per_call (p.current_slots + length slots)
                  || leb cfg.max_targets_per_call (length current)))
            ≡ false
          → length (current ++ (a, slots) ∷ []) ≤ cfg.max_targets_per_call
      fewer [] room = one
      fewer (y ∷ current) room = ground (arith, room, length-append (y ∷ current) ((a, slots) ∷ []))

  pack_all-IsPacked :
      (p : Packing) (xs : List Target)
      → 1 ≤ cfg.max_targets_per_call
      → AllPackable xs
      → IsPacked p
      → IsPacked (pack_all cfg p xs)
  unfolding pack_all
  pack_all-IsPacked p [] one all h = h
  pack_all-IsPacked p (x ∷ xs) one all h =
      pack_all-IsPacked (pack cfg p x) xs one all.1 (pack-IsPacked p x one all.0 h)

  abbrev IsSplit : Split → Type 0
  IsSplit x = AllFit x.plans × AllPackable x.packable

  split_chunk-IsSplit :
      (a : Address) (x : Split) (chunk : List U256)
      → IsChunk cfg.max_slots_per_call chunk
      → IsSplit x
      → IsSplit (split_chunk cfg.max_slots_per_call a x chunk)
  unfolding split_chunk
  split_chunk-IsSplit a x chunk piece h =
      elim (Bool-cases ((length chunk == cfg.max_slots_per_call) || (a == multicall3_address))) [
        | inl alone ↦ rw alone (AllFit-snoc x.plans (CallPlan.single a chunk) h.0 piece, h.1)
        | inr shared ↦ rw shared (
          h.0,
          All-append (IsPackable cfg.max_slots_per_call) x.packable ((a, chunk) ∷ []) h.1
              ((ground arith, piece), tt),
        )
      ]

  split_chunks-IsSplit :
      (a : Address) (x : Split) (pieces : List (List U256))
      → All (IsChunk cfg.max_slots_per_call) pieces
      → IsSplit x
      → IsSplit (split_chunks cfg.max_slots_per_call a x pieces)
  unfolding split_chunks
  split_chunks-IsSplit a x [] all h = h
  split_chunks-IsSplit a x (piece ∷ pieces) all h =
      split_chunks-IsSplit a (split_chunk cfg.max_slots_per_call a x piece) pieces all.1
        (split_chunk-IsSplit a x piece all.0 h)

  split_groups-IsSplit :
      (order : List Address) (groups : Map Address (List U256)) (x : Split)
      → 1 ≤ cfg.max_slots_per_call
      → IsSplit x
      → IsSplit (split_groups cfg.max_slots_per_call order groups x)
  unfolding split_groups
  split_groups-IsSplit [] groups x one h = h
  split_groups-IsSplit (a ∷ order) groups x one h =
      let slots = get_or (get a groups) [] in
      split_groups-IsSplit order (remove a groups)
        (split_chunks cfg.max_slots_per_call a x (chunks cfg.max_slots_per_call slots)) one
        (split_chunks-IsSplit a x (chunks cfg.max_slots_per_call slots)
          (chunks-IsChunk cfg.max_slots_per_call slots one) h)

  plan_calls-AllFit :
      (requests : List Key)
      → 1 ≤ cfg.max_slots_per_call
      → 1 ≤ cfg.max_targets_per_call
      → AllFit (plan_calls requests cfg)
  unfolding plan_calls slots_of_targets
  plan_calls-AllFit requests one_slot one_target =
      let g = group_requests (record { order = []; groups = [] }) requests in
      let start : Split = record { plans = []; packable = [] } in
      let x = split_groups cfg.max_slots_per_call g.order g.groups start in
      let split = split_groups-IsSplit g.order g.groups start one_slot (tt, tt) in
      let first : Packing = record { plans = x.plans; current = []; current_slots = 0 } in
      let p = pack_all cfg first x.packable in
      let (fit, all, total, few, short) =
        pack_all-IsPacked first x.packable one_target split.1
          (split.0, tt, empty, omega arith, omega arith) in
      flush-AllFit p.current p.plans fit all (omega (arith, total, few)) short
    where
      empty : 0 ≡ slots_of_targets []
      empty = refl

-- a normalized configuration allows a slot and a target in a call, and no more slots than bytes
pub normalized-IsUsable :
    (cfg : BulkCallConfig)
    → let n = normalized cfg in
      (1 ≤ n.max_slots_per_call)
      × (1 ≤ n.max_targets_per_call)
      × (json_rpc_envelope_reserve + json_hex_bytes_per_slot * n.max_slots_per_call
          ≤ n.max_request_bytes)
unfolding normalized
normalized-IsUsable cfg = (ground arith, ground arith, ground arith)

slots_of_targets-pos :
    (n : ℕ) (targets : List Target)
    → All (IsPackable n) targets
    → 1 ≤ length targets
    → 1 ≤ slots_of_targets targets
unfolding slots_of_targets
slots_of_targets-pos n [] all h = absurd (omega arith)
slots_of_targets-pos n ((a, slots) ∷ targets) all h = omega (arith, all.0.1)

-- within the budgets, with a slot at least, and with its slots within the bytes of a request
abbrev pub FitsRequest : BulkCallConfig → CallPlan → Type 0
FitsRequest cfg plan =
    Fits cfg plan
    × (1 ≤ request_slot_count plan)
    × (json_rpc_envelope_reserve + json_hex_bytes_per_slot * request_slot_count plan
        ≤ cfg.max_request_bytes)

Fits-FitsRequest :
    (cfg : BulkCallConfig) (plan : CallPlan)
    → json_rpc_envelope_reserve + json_hex_bytes_per_slot * cfg.max_slots_per_call
      ≤ cfg.max_request_bytes
    → Fits cfg plan
    → FitsRequest cfg plan
unfolding request_slot_count
Fits-FitsRequest cfg (CallPlan.single a slots) bytes fit = (fit, fit.0, omega (arith, fit.1))
Fits-FitsRequest cfg (CallPlan.multi targets) bytes fit = (
  fit,
  slots_of_targets-pos cfg.max_slots_per_call targets fit.3 (omega (arith, fit.0)),
  omega (arith, fit.2),
)

All-map {ℓ κ} :
    {A : Type ℓ} {P Q : A → Type κ} (f : (x : A) → P x → Q x) (xs : List A) → All P xs → All Q xs
All-map f [] h = tt
All-map f (x ∷ xs) h = (f x h.0, All-map f xs h.1)

-- Whatever the configuration, each call that is planned under its normalized form has a slot, has at
-- most the slots and targets that a call may have, fits the byte budget of a request by the
-- reckoning of 512 bytes and 64 for a slot, and never has the dispatcher's address among several
-- targets.
pub plan_calls-FitsRequest :
    (requests : List Key) (cfg : BulkCallConfig)
    → All (FitsRequest (normalized cfg)) (plan_calls requests (normalized cfg))
plan_calls-FitsRequest requests cfg =
    let (one_slot, one_target, bytes) = normalized-IsUsable cfg in
    All-map (λ plan fit. Fits-FitsRequest (normalized cfg) plan bytes fit) _
      (plan_calls-AllFit (normalized cfg) requests one_slot one_target)
