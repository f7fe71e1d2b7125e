-- ===== src/Tests/Access.antt =====
-- One run of each result on the cancellation token.
use evm_fork_cache.Prelude.{◌≡◌, true, [], ◌∷◌}
use evm_fork_cache.Cancellation.{new_token, cancels, starts, calls, is_cancelled, has_started}
use evm_fork_cache.Cancellation.Monotone.{calls-is_cancelled}

calls-is_cancelled_example :
    (is_cancelled (calls new_token (starts ∷ cancels ∷ starts ∷ [])) ≡ true)
    × (has_started (calls new_token (starts ∷ cancels ∷ starts ∷ [])) ≡ true)
calls-is_cancelled_example = calls-is_cancelled (starts ∷ cancels ∷ starts ∷ [])
