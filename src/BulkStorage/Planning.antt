-- ===== src/BulkStorage/Planning.antt =====
-- src/bulk_storage.rs: every requested slot is planned, as often as it is requested.
use evm_fork_cache.Prelude.{
  ℕ, ◌+◌, ◌≤◌, ◌≡◌, refl, ap, ◌∙◌, false, not, ◌&&◌, ◌||◌, List, [], ◌∷◌, ◌++◌, arith, length,
  is_empty, ltb, leb, ◌==◌, map, if◌then◌else◌, get_or, inl, inr, Bool-cases,
}
use evm_fork_cache.Prelude.Eq.{nat_eq, pair_eq}
use evm_fork_cache.Prelude.Map.{Map, get, remove, contains_key, get-insert, get-remove}
use evm_fork_cache.Prelude.Set.{contains, contains-append, Distinct}
use evm_fork_cache.Prelude.Chunks.{
  chunks, flat_map, flat_map-append, count, count-append, count_all, count_all-chunks,
}
use evm_fork_cache.Word.{Address, U256}
use evm_fork_cache.Cache.Verify.{Key}
use evm_fork_cache.BulkStorage.{
  BulkCallConfig, Target, CallPlan, Groups, group_request, group_requests, Split, split_chunk,
  split_chunks, split_groups, Packing, flush, pack, pack_all, plan_calls,
}

-- the slots that a call covers
abbrev pub pairs_of_target : Target → List Key
pairs_of_target (a, slots) = map (λ s. (a, s)) slots

abbrev pub pairs_of : CallPlan → List Key
pairs_of (CallPlan.single a slots) = pairs_of_target (a, slots)
pairs_of (CallPlan.multi targets) = flat_map pairs_of_target targets

abbrev pub planned : List CallPlan → List Key
planned plans = flat_map pairs_of plans

module _ (k : Key) where
  in_plans : List CallPlan → ℕ
  in_plans plans = count k (planned plans)

  in_targets : List Target → ℕ
  in_targets targets = count k (flat_map pairs_of_target targets)

  count-pairs_of_target :
      (a : Address) (slots : List U256)
      → count k (pairs_of_target (a, slots)) ≡ (if a == k.0 then count k.1 slots else 0)
  unfolding count
  count-pairs_of_target a [] = ground arith
  count-pairs_of_target a (s ∷ slots) = ground (arith, count-pairs_of_target a slots)

  in_plans-snoc :
      (plans : List CallPlan) (plan : CallPlan)
      → in_plans (plans ++ plan ∷ []) ≡ in_plans plans + count k (pairs_of plan)
  unfolding in_plans flat_map count
  in_plans-snoc plans plan = ground (
    arith,
    ap (count k) (flat_map-append pairs_of plans (plan ∷ [])),
    count-append k (planned plans) (planned (plan ∷ [])),
    count-append k (pairs_of plan) [],
  )

  in_targets-snoc :
      (targets : List Target) (x : Target)
      → in_targets (targets ++ x ∷ []) ≡ in_targets targets + count k (pairs_of_target x)
  unfolding in_targets flat_map count
  in_targets-snoc targets x = ground (
    arith,
    ap (count k) (flat_map-append pairs_of_target targets (x ∷ [])),
    count-append k (flat_map pairs_of_target targets) (flat_map pairs_of_target (x ∷ [])),
    count-append k (pairs_of_target x) [],
  )

  in_targets-nil : in_targets [] ≡ 0
  unfolding in_targets flat_map count
  in_targets-nil = refl

  in_plans-flush :
      (current : List Target) (plans : List CallPlan)
      → in_plans (flush current plans) ≡ in_plans plans + in_targets current
  unfolding flush in_targets flat_map count
  in_plans-flush [] plans = omega arith
  in_plans-flush ((a, slots) ∷ []) plans = ground (
    arith,
    in_plans-snoc plans (CallPlan.single a slots),
    count-append k (pairs_of_target (a, slots)) [],
  )
  in_plans-flush (x ∷ y ∷ current) plans = in_plans-snoc plans (CallPlan.multi (x ∷ y ∷ current))

  in_packing : Packing → ℕ
  in_packing p = in_plans p.plans + in_targets p.current

  in_packing-pack :
      (cfg : BulkCallConfig) (p : Packing) (x : Target)
      → in_packing (pack cfg p x) ≡ in_packing p + count k (pairs_of_target x)
  unfolding in_packing pack
  in_packing-pack cfg p (a, slots) =
      elim (Bool-cases (
        not (is_empty p.current)
        && (ltb cfg.max_slots_per_call (p.current_slots + length slots)
            || leb cfg.max_targets_per_call (length p.current)))) [
              | inl full ↦ rw full (
                  omega (
                    arith,
                    in_plans-flush p.current p.plans,
                    in_targets-snoc [] (a, slots),
                    in_targets-nil,
                  ))
              | inr room ↦ rw room (omega (arith, in_targets-snoc p.current (a, slots)))
            ]

  in_packing-pack_all :
      (cfg : BulkCallConfig) (p : Packing) (xs : List Target)
      → in_packing (pack_all cfg p xs) ≡ in_packing p + in_targets xs
  unfolding pack_all in_targets flat_map count
  in_packing-pack_all cfg p [] = omega arith
  in_packing-pack_all cfg p (x ∷ xs) = ground (
    arith,
    in_packing-pack cfg p x,
    in_packing-pack_all cfg (pack cfg p x) xs,
    count-append k (pairs_of_target x) (flat_map pairs_of_target xs),
  )

  in_split : Split → ℕ
  in_split x = in_plans x.plans + in_targets x.packable

  in_split-chunks :
      (n : ℕ) (a : Address) (x : Split) (pieces : List (List U256))
      → in_split (split_chunks n a x pieces)
        ≡ in_split x + (if a == k.0 then count_all k.1 pieces else 0)
  unfolding split_chunks split_chunk in_split
  in_split-chunks n a x [] = ground arith
  in_split-chunks n a x (piece ∷ pieces) = ground (
    arith,
    in_split-chunks n a (split_chunk n a x piece) pieces,
    in_plans-snoc x.plans (CallPlan.single a piece),
    in_targets-snoc x.packable (a, piece),
    count-pairs_of_target a piece,
  )

  -- the slots of the address that stand in its group
  in_group : Map Address (List U256) → ℕ
  in_group groups = count k.1 (get_or (get k.0 groups) [])

  in_split-groups :
      (n : ℕ) (order : List Address) (groups : Map Address (List U256)) (x : Split)
      → 1 ≤ n
      → Distinct order
      → in_split (split_groups n order groups x)
        ≡ in_split x + (if contains k.0 order then in_group groups else 0)
  unfolding split_groups contains in_group
  in_split-groups n [] groups x h d = omega arith
  in_split-groups n (a ∷ order) groups x h d =
      let slots = get_or (get a groups) [] in
      let y = split_chunks n a x (chunks n slots) in
      let later = in_split-groups n order (remove a groups) y h d.1 in
      let here = in_split-chunks n a x (chunks n slots) in
      elim (Bool-cases (a == k.0)) [
        | inl same_address ↦
            let same : a ≡ k.0 = ground arith in
            ground (
              arith,
              later,
              here,
              d.0,
              ap (λ b. contains b order) same,
              ap (λ b. count k.1 (get_or (get b groups) [])) same,
              count_all-chunks k.1 n slots h,
            )
        | inr other ↦ ground (arith, later, here, get-remove a k.0 groups)
      ]

  in_group-requests :
      (g : Groups) (requests : List Key)
      → in_group (group_requests g requests).groups ≡ in_group g.groups + count k requests
  unfolding group_requests group_request in_group count
  in_group-requests g [] = omega arith
  in_group-requests g ((a, s) ∷ requests) =
      let slots = get_or (get a g.groups) [] in
      elim (Bool-cases (a == k.0)) [
        | inl same_address ↦
            let same : a ≡ k.0 = ground arith in
            ground (
              arith,
              in_group-requests (group_request g (a, s)) requests,
              get-insert a k.0 (slots ++ s ∷ []) g.groups,
              count-append k.1 slots (s ∷ []),
              ap (λ b. count k.1 (get_or (get b g.groups) [])) same,
            )
        | inr other ↦ ground (
          arith,
          in_group-requests (group_request g (a, s)) requests,
          get-insert a k.0 (slots ++ s ∷ []) g.groups,
        )
      ]

-- The addresses in the order are those that have a group, each once.
abbrev Grouped : Groups → Type 0
Grouped g = Distinct g.order × ((a : Address) → contains a g.order ≡ contains_key a g.groups)

Distinct-snoc :
    (a : Address) (xs : List Address)
    → contains a xs ≡ false
    → Distinct xs
    → Distinct (xs ++ a ∷ [])
unfolding contains
Distinct-snoc a [] h d = (refl, tt)
Distinct-snoc a (x ∷ xs) h d =
    (ground (arith, contains-append x xs (a ∷ []), d.0), Distinct-snoc a xs (ground (arith, h)) d.1)

group_request-Grouped : (g : Groups) (k : Key) → Grouped g → Grouped (group_request g k)
unfolding group_request contains
group_request-Grouped g (a, s) (d, known) = elim (Bool-cases (contains_key a g.groups)) [
  | inl there ↦ rw there (
    d,
    λ b. ground (
      arith,
      known b,
      known a,
      get-insert a b (get_or (get a g.groups) [] ++ s ∷ []) g.groups,
      λ (e : a ≡ b). ap (λ x. contains_key x g.groups) e,
    ),
  )
  | inr absent ↦ rw absent (
    Distinct-snoc a g.order (known a ∙ absent) d,
    λ b. ground (
      arith,
      known b,
      contains-append b g.order (a ∷ []),
      get-insert a b (get_or (get a g.groups) [] ++ s ∷ []) g.groups,
    ),
  )
]

group_requests-Grouped :
    (g : Groups) (requests : List Key) → Grouped g → Grouped (group_requests g requests)
unfolding group_requests
group_requests-Grouped g [] h = h
group_requests-Grouped g (k ∷ requests) h =
    group_requests-Grouped (group_request g k) requests (group_request-Grouped g k h)

-- With at least one slot allowed in a call, the planned calls cover every requested slot exactly as
-- often as it is requested, and no other slot.
pub count-plan_calls :
    (requests : List Key) (cfg : BulkCallConfig) (k : Key)
    → 1 ≤ cfg.max_slots_per_call
    → count k (planned (plan_calls requests cfg)) ≡ count k requests
unfolding plan_calls in_packing in_split in_group in_plans in_targets flat_map count get contains
count-plan_calls requests cfg k h =
    let g = group_requests (record { order = []; groups = [] }) requests in
    let start : Split = record { plans = []; packable = [] } in
    let x = split_groups cfg.max_slots_per_call g.order g.groups start in
    let first : Packing = record { plans = x.plans; current = []; current_slots = 0 } in
    let p = pack_all cfg first x.packable in
    let grouped =
      group_requests-Grouped (record { order = []; groups = [] }) requests (tt, λ a. empty a) in
    ground (
      arith,
      in_plans-flush k p.current p.plans,
      in_packing-pack_all k cfg first x.packable,
      in_split-groups k cfg.max_slots_per_call g.order g.groups start h grouped.0,
      in_group-requests k (record { order = []; groups = [] }) requests,
      grouped.1 k.0,
    )
  where
    empty : (a : Address) → contains a [] ≡ contains_key {V = List U256} a []
    empty a = refl
