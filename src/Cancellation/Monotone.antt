-- ===== src/Cancellation/Monotone.antt =====
-- Cancellation and start are monotone, and independent of each other and of the order of calls.
use evm_fork_cache.Prelude.{
  ℕ, zero, suc, ◌<◌, ◌≡◌, refl, Bool, true, false, ◌||◌, List, [], ◌∷◌, arith, any_by,
}
use evm_fork_cache.Cancellation.{
  SimulationCancellationToken, new_token, cancel, mark_started, is_cancelled, has_started, Call,
  cancels, starts, call, calls,
}

abbrev pub is_cancel : Call → Bool
is_cancel cancels = true
is_cancel starts = false

abbrev pub is_start : Call → Bool
is_start cancels = false
is_start starts = true

-- the four values of the byte
pub IsToken : SimulationCancellationToken → Type 0
IsToken t = t.state < 4

four_values : (P : ℕ → Type 0) → P 0 → P 1 → P 2 → P 3 → (n : ℕ) → n < 4 → P n
four_values P a b c d zero h = a
four_values P a b c d (suc zero) h = b
four_values P a b c d (suc (suc zero)) h = c
four_values P a b c d (suc (suc (suc zero))) h = d
four_values P a b c d (suc (suc (suc (suc n)))) h = absurd (omega arith)

abbrev Effect : ℕ → Call → Type 0
Effect n c =
    let t : SimulationCancellationToken = record { state = n } in
    (is_cancelled (call t c) ≡ (is_cancelled t || is_cancel c))
    × (has_started (call t c) ≡ (has_started t || is_start c))
    × ((call t c).state < 4)

call-Effect : (n : ℕ) (c : Call) → n < 4 → Effect n c
unfolding call cancel mark_started is_cancelled has_started
call-Effect n cancels h =
    four_values (λ m. Effect m cancels) (refl, refl, omega arith) (refl, refl, omega arith)
      (refl, refl, omega arith) (refl, refl, omega arith) n h
call-Effect n starts h =
    four_values (λ m. Effect m starts) (refl, refl, omega arith) (refl, refl, omega arith)
      (refl, refl, omega arith) (refl, refl, omega arith) n h

calls-effect :
    (t : SimulationCancellationToken) (cs : List Call)
    → t.state < 4
    → (is_cancelled (calls t cs) ≡ (is_cancelled t || any_by is_cancel cs))
      × (has_started (calls t cs) ≡ (has_started t || any_by is_start cs))
unfolding calls
calls-effect t [] h = (ground arith, ground arith)
calls-effect t (c ∷ cs) h =
    let now = call-Effect t.state c h in
    let later = calls-effect (call t c) cs now.2 in
    (ground (arith, now.0, later.0), ground (arith, now.1, later.1))

-- After any calls of any holders, in any order, a new token is cancelled exactly if one of them
-- cancelled it, and has started exactly if one of them started it.
pub calls-is_cancelled :
    (cs : List Call)
    → (is_cancelled (calls new_token cs) ≡ any_by is_cancel cs)
      × (has_started (calls new_token cs) ≡ any_by is_start cs)
unfolding is_cancelled has_started
calls-is_cancelled cs = calls-effect new_token cs (omega arith)
