-- ===== src/Base/Tables.antt =====
-- Facts about small ranges of numbers, checked by going through them.
use Prim.Native.Nat.{ℕ, zero, suc, ◌<◌}
use mathlib.Core.Path.{◌≡◌}
use mathlib.Core.Bool.{Bool, true, ◌&&◌}
use native.Mathlib.Omega.{arith}

-- Does the test pass at every number below the limit?
unfoldable pub every_under : ℕ → (ℕ → Bool) → Bool
every_under zero test = true
every_under (suc limit) test = every_under limit test && test limit

pub every_under→ :
    (limit : ℕ) (test : ℕ → Bool)
    → every_under limit test ≡ true
    → (n : ℕ) → n < limit
    → test n ≡ true
unfolding every_under
every_under→ zero test passes n h = absurd (omega arith)
every_under→ (suc limit) test passes n h = ground (arith, every_under→ limit test (ground arith) n)
