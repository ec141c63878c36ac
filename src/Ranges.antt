-- ===== src/Ranges.antt =====
-- Facts about every value of a table, by evaluation.
use trn_actions.Prelude.{ℕ, zero, suc, ◌<◌, ◌≡◌, Bool, true, false, arith, if◌then◌else◌}

-- The test passes at 0, 1, ..., size - 1.
unfoldable pub passes_up_to : (ℕ → Bool) → ℕ → Bool
passes_up_to test zero = true
passes_up_to test (suc size) =
    let rest = passes_up_to test size in if test size then rest else false

pub passes_at :
    (test : ℕ → Bool) (size entry : ℕ)
    → entry < size
    → passes_up_to test size ≡ true
    → test entry ≡ true
unfolding passes_up_to
passes_at test zero entry bound all = elim bound [ ]
passes_at test (suc size) entry bound all = ground (arith, passes_at test size entry)
