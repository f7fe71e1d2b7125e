-- ===== src/Events/Horizon.antt =====
-- src/events/mod.rs: the two rings stay within the reorg horizon.
use evm_fork_cache.Prelude.{
  ℕ, ◌≤◌, Bool, List, [], ◌∷◌, arith, All, length, is_empty, filter_by, leb, inl, inr, Bool-cases,
}
use evm_fork_cache.Cache.State.{EvmCache, Revm}
use evm_fork_cache.Events.{
  EventPipeline, Ingested, Log, trim, trim_ring, push_block, ingest_logs, ingest_loop, reorg_to,
  nothing_ingested, at_most,
}

length-trim {ℓ} : {A : Type ℓ} (depth : ℕ) (xs : List A) → length (trim depth xs) ≤ depth
unfolding trim
length-trim depth [] = omega arith
length-trim depth (x ∷ xs) = ground (arith, length-trim depth xs)

length-filter_by {ℓ} :
    {A : Type ℓ} (p : A → Bool) (xs : List A) → length (filter_by p xs) ≤ length xs
length-filter_by p [] = omega arith
length-filter_by p (x ∷ xs) = ground (arith, length-filter_by p xs)

-- Both rings hold at most `depth` blocks.
abbrev pub IsBounded : EventPipeline → Type 0
IsBounded p = (length p.touched ≤ p.reorg.depth) × (length p.derived ≤ p.reorg.depth)

push_block-IsBounded :
    (p : EventPipeline) (block : ℕ) (i : Ingested) → IsBounded p → IsBounded (push_block p block i)
unfolding push_block trim_ring
push_block-IsBounded p block i h = elim (Bool-cases (is_empty i.touched_addrs)) [
  | inl nothing ↦ rw nothing h
  | inr some_touched ↦ rw some_touched (length-trim _ _, length-trim _ _)
]

-- every block of a ring is at most the head
abbrev pub IsBelow {ℓ} : {A : Type ℓ} → ℕ → List (ℕ × A) → Type 0
IsBelow head ring = All (λ entry. entry.0 ≤ head) ring

filter_by-IsBelow {ℓ} :
    {A : Type ℓ} (head : ℕ) (ring : List (ℕ × A)) → IsBelow head (filter_by (at_most head) ring)
filter_by-IsBelow head [] = tt
filter_by-IsBelow head ((block, x) ∷ ring) = elim (Bool-cases (leb block head)) [
  | inl keep ↦ rw keep (ground arith, filter_by-IsBelow head ring)
  | inr drop ↦ rw drop (filter_by-IsBelow head ring)
]

-- One call of the pipeline that changes it.
pub data PipelineCall : Type 0 where
  ingest : ℕ → List Log → PipelineCall
  reorg : ℕ → PipelineCall

abbrev pub call : Revm → EventPipeline × EvmCache → PipelineCall → EventPipeline × EvmCache
call revm (p, c) (ingest block logs) = let r = ingest_logs revm p c block logs in (r.0, r.1)
call revm (p, c) (reorg new_head) = let r = reorg_to revm p c new_head in (r.0, r.1)

abbrev pub calls : Revm → EventPipeline × EvmCache → List PipelineCall → EventPipeline × EvmCache
calls revm s [] = s
calls revm s (x ∷ xs) = calls revm (call revm s x) xs

call-IsBounded :
    (revm : Revm) (s : EventPipeline × EvmCache) (x : PipelineCall)
    → IsBounded s.0
    → IsBounded (call revm s x).0
unfolding ingest_logs reorg_to
call-IsBounded revm (p, c) (ingest block logs) h =
    push_block-IsBounded p block (ingest_loop revm p.registry c (nothing_ingested block) logs).1 h
call-IsBounded revm (p, c) (reorg new_head) h = (
  omega (arith, h, length-filter_by (at_most new_head) p.touched),
  omega (arith, h, length-filter_by (at_most new_head) p.derived),
)

-- Whatever blocks are ingested and reorged, in any order, both rings of a pipeline that had at most
-- `depth` entries still have.
pub calls-IsBounded :
    (revm : Revm) (s : EventPipeline × EvmCache) (xs : List PipelineCall)
    → IsBounded s.0
    → IsBounded (calls revm s xs).0
calls-IsBounded revm s [] h = h
calls-IsBounded revm s (x ∷ xs) h =
    calls-IsBounded revm (call revm s x) xs (call-IsBounded revm s x h)

-- After a reorg neither ring holds a block above the new head.
pub reorg_to-IsBelow :
    (revm : Revm) (p : EventPipeline) (c : EvmCache) (new_head : ℕ)
    → let kept = (reorg_to revm p c new_head).0 in
      IsBelow new_head kept.touched × IsBelow new_head kept.derived
unfolding reorg_to
reorg_to-IsBelow revm p c new_head =
    (filter_by-IsBelow new_head p.touched, filter_by-IsBelow new_head p.derived)
