-- ===== src/Config/Tests.antt =====
-- crates/drv-thru/src/config.rs: sizes and durations of the source's tests.
use drv_thru.Base.{◌^◌, ◌<◌, ◌≡◌, ◌↔◌, refl, ok, err}
use drv_thru.Text.{codes}
use drv_thru.Config.{byte_unit, parse_byte_count, parse_duration, unknown_suffix, overflow}
use drv_thru.Config.Numbers.{Quantity}
use drv_thru.Config.Units.{parse_byte_count_iff}

two_kib : parse_byte_count (codes " 2K") ≡ ok 2048
unfolding parse_byte_count
two_kib = refl

no_unit : parse_byte_count (codes "1 nope") ≡ err unknown_suffix
unfolding parse_byte_count
no_unit = refl

too_many : parse_byte_count (codes "16777216 t") ≡ err overflow
unfolding parse_byte_count
too_many = refl

three_hours : parse_duration (codes "3 h") ≡ ok 10_800
unfolding parse_duration
three_hours = refl

parse_byte_count_iff_example :
    (parse_byte_count (codes " 2K") ≡ ok 2048)
    ↔ (Quantity byte_unit (codes " 2K") 2048 × (2048 < 2 ^ 64))
parse_byte_count_iff_example = parse_byte_count_iff (codes " 2K") 2048
