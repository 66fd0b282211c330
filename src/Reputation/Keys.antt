-- ===== src/Reputation/Keys.antt =====
-- x/reputation/internal/reputation.go: how many keys of a post a stake buys.
pub mod Price
use lino.Prelude.{ℕ, zero, suc, ◌+◌, ◌/◌, ◌*◌, ◌<◌, ltb, List, [], ◌∷◌, if◌then◌else◌}
use lino.Prelude.Int.{ℤ, pos, ◌+ℤ◌, ◌*ℤ◌, ltb_ℤ, leb_ℤ}

-- const.go
abbrev pub key_price_c : ℤ
key_price_c = pos 1000

abbrev pub max_num_keys_each_time : ℕ
max_num_keys_each_time = 10000000000

abbrev pub one_lino_coin : ℕ
one_lino_coin = 100000

-- `eval`: (n + 1) * (2 * c + n). The int64 `n` is never negative here.
unfoldable pub eval_keys : ℤ → ℕ → ℤ
eval_keys two_c n = (pos 1 +ℤ pos n) *ℤ (two_c +ℤ pos n)

-- The loop over `commonValues`, with its `break`: the bounds `beg` and `end`.
unfoldable pub narrow : ℤ → ℤ → List ℕ → ℕ × ℕ → ℕ × ℕ
narrow two_c two_s [] bounds = bounds
narrow two_c two_s (v ∷ vs) (beg, end) =
    let rest = narrow two_c two_s vs (v, end) in
    if ltb_ℤ two_s (eval_keys two_c v) then (beg, v) else rest

-- The binary search, on fuel: `for beg+1 < end`. All values are at most
-- `max_num_keys_each_time + 1`, so that no int64 wraps.
unfoldable pub bisect : ℕ → ℤ → ℤ → ℕ → ℕ → ℕ
bisect zero two_c two_s beg end = beg
bisect (suc fuel) two_c two_s beg end =
    let mid = (beg + end) / 2 in
    let up = bisect fuel two_c two_s mid end in
    let down = bisect fuel two_c two_s beg mid in
    if ltb (beg + 1) end then if leb_ℤ (eval_keys two_c mid) two_s then up else down else beg

abbrev common_values : List ℕ
common_values = one_lino_coin ∷ 100 * one_lino_coin ∷ 10000 * one_lino_coin ∷ []

-- 2^34 exceeds the widest range that is searched.
abbrev bisect_fuel : ℕ
bisect_fuel = 34

unfoldable pub num_keys_can_buy : ℤ → ℤ → ℤ
num_keys_can_buy num_keys_sold stake =
    let current_price = key_price_c +ℤ num_keys_sold in
    let two_c = pos 2 *ℤ current_price in
    let two_s = pos 2 *ℤ stake in
    let bounds = narrow two_c two_s common_values (0, max_num_keys_each_time + 1) in
    let beg = bisect bisect_fuel two_c two_s bounds.0 bounds.1 in
    if ltb_ℤ stake current_price then pos 0 else pos (beg + 1)
