-- ===== src/BulkStorage/Bundles.antt =====
-- src/bulk_storage.rs: the requests that bundle the planned calls.
use evm_fork_cache.Prelude.{
  ℕ, ◌+◌, ◌≤◌, ◌≡◌, ◌⊎◌, refl, sym, ap, ◌∙◌, List, [], ◌∷◌, ◌++◌, arith, length, is_empty, ltb,
  if◌then◌else◌, inl, inr, Bool-cases, All, All-append, append_assoc, append-nil,
}
use evm_fork_cache.Prelude.Eq.{nat_eq}
use evm_fork_cache.Prelude.Chunks.{flat_map, flat_map-append}
use evm_fork_cache.BulkStorage.{
  CallPlan, request_slot_count, Bundling, bundle, bundle_all, group_plans_for_call_many,
}

-- the slots of a request
abbrev slots_of_plans : List CallPlan → ℕ
slots_of_plans [] = 0
slots_of_plans (plan ∷ plans) = request_slot_count plan + slots_of_plans plans

slots_of_plans-snoc :
    (plans : List CallPlan) (plan : CallPlan)
    → slots_of_plans (plans ++ plan ∷ []) ≡ slots_of_plans plans + request_slot_count plan
slots_of_plans-snoc [] plan = omega arith
slots_of_plans-snoc (x ∷ plans) plan = omega (arith, slots_of_plans-snoc plans plan)

-- A request within the slot budget, or of one call that alone exceeds it.
abbrev pub IsRequest : ℕ → List CallPlan → Type 0
IsRequest n group = (1 ≤ length group) × ((length group ≡ 1) ⊎ (slots_of_plans group ≤ n))

-- the requests in order
abbrev pub unbundled : List (List CallPlan) → List CallPlan
unbundled requests = flat_map (λ group. group) requests

unbundled-snoc :
    (requests : List (List CallPlan)) (group : List CallPlan)
    → unbundled (requests ++ group ∷ []) ≡ unbundled requests ++ group
unfolding flat_map
unbundled-snoc requests group = flat_map-append (λ g. g) requests (group ∷ []) ∙ rw append-nil refl

module _ (n : ℕ) where
  -- what the loop has sent, and what it holds
  abbrev held : Bundling → List CallPlan
  held b = unbundled b.requests ++ b.current

  abbrev IsBundled : Bundling → Type 0
  IsBundled b =
      All (IsRequest n) b.requests
      × (b.current_slots ≡ slots_of_plans b.current)
      × ((length b.current ≤ 1) ⊎ (slots_of_plans b.current ≤ n))

  IsRequest-current :
      (x : CallPlan) (current : List CallPlan)
      → (length (x ∷ current) ≤ 1) ⊎ (slots_of_plans (x ∷ current) ≤ n)
      → IsRequest n (x ∷ current)
  IsRequest-current x current (inl one) = (omega arith, inl (omega arith))
  IsRequest-current x current (inr few) = (omega arith, inr few)

  abbrev Bundles : Bundling → CallPlan → Type 0
  Bundles b plan = IsBundled (bundle n b plan) × (held (bundle n b plan) ≡ held b ++ plan ∷ [])

  bundle_parts :
      (requests : List (List CallPlan)) (current : List CallPlan) (slots : ℕ) (plan : CallPlan)
      → let b : Bundling = record {
        requests = requests;
        current = current;
        current_slots = slots;
      } in
        IsBundled b → Bundles b plan
  unfolding bundle
  bundle_parts requests [] slots plan (sent, total, few) =
      ((sent, omega (arith, total), inl (omega arith)), rw append-nil refl)
  bundle_parts requests (x ∷ current) slots plan (sent, total, few) =
      elim (Bool-cases (ltb n (slots + request_slot_count plan))) [
        | inl over ↦ rw over (
          (
            All-append (IsRequest n) requests ((x ∷ current) ∷ []) sent
                (IsRequest-current x current few, tt),
            omega arith,
            inl (omega arith),
          ),
          ap (λ xs. xs ++ plan ∷ []) (unbundled-snoc requests (x ∷ current)),
        )
        | inr room ↦ rw room (
          (
            sent,
            omega (arith, total, slots_of_plans-snoc (x ∷ current) plan),
            inr (ground (arith, room, total, slots_of_plans-snoc (x ∷ current) plan)),
          ),
          sym (append_assoc (unbundled requests) (x ∷ current) (plan ∷ [])),
        )
      ]

  bundle_all-IsBundled :
      (b : Bundling) (plans : List CallPlan)
      → IsBundled b
      → IsBundled (bundle_all n b plans) × (held (bundle_all n b plans) ≡ held b ++ plans)
  unfolding bundle_all
  bundle_all-IsBundled b [] h = (h, sym (append-nil (held b)))
  bundle_all-IsBundled b (plan ∷ plans) h =
      let (step, kept) = bundle_parts b.requests b.current b.current_slots plan h in
      let (rest, all) = bundle_all-IsBundled (bundle n b plan) plans step in
      (rest, all ∙ ap (λ xs. xs ++ plans) kept ∙ append_assoc (held b) (plan ∷ []) plans)

  finish :
      (requests : List (List CallPlan)) (current : List CallPlan)
      → All (IsRequest n) requests
      → (length current ≤ 1) ⊎ (slots_of_plans current ≤ n)
      → let all = if is_empty current then requests else requests ++ current ∷ [] in
        All (IsRequest n) all × (unbundled all ≡ unbundled requests ++ current)
  finish requests [] sent few = (sent, sym (append-nil (unbundled requests)))
  finish requests (x ∷ current) sent few = (
    All-append (IsRequest n) requests ((x ∷ current) ∷ []) sent
        (IsRequest-current x current few, tt),
    unbundled-snoc requests (x ∷ current),
  )

-- The requests hold the planned calls in order, each exactly once; none is empty, and one with more
-- slots than the budget of a request has a single call.
pub group_plans-unbundled :
    (plans : List CallPlan) (n : ℕ)
    → let requests = group_plans_for_call_many plans n in
      (unbundled requests ≡ plans) × All (IsRequest n) requests
unfolding group_plans_for_call_many flat_map
group_plans-unbundled plans n =
    let start : Bundling = record { requests = []; current = []; current_slots = 0 } in
    let (h, all) = bundle_all-IsBundled n start plans (tt, refl, inl (omega arith)) in
    let b = bundle_all n start plans in
    let (sent, kept) = finish n b.requests b.current h.0 h.2 in (kept ∙ all, sent)
