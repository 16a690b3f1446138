-- ===== src/Tests/Money.antt =====
-- Stakes, caps and exposure on concrete numbers.
use vault_runner_api.Prelude.{◌≤◌, ◌≡◌, refl, some, arith}
use vault_runner_api.Money.{floor_payout}
use vault_runner_api.Risk.{default_limits, cap_payout, potential_payout}
use vault_runner_api.Risk.Cover.{payout-le-potential}

-- 100 at 1.14, from the hundredths
paid_114 : floor_payout 100 114 ≡ 114
unfolding floor_payout
paid_114 = refl

payout-le-potential_example :
    cap_payout default_limits (floor_payout 40 250) (some 90) ≤ potential_payout default_limits 40
payout-le-potential_example = payout-le-potential default_limits 40 250 (some 90) (omega arith)
