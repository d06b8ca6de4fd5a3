-- ===== src/Tests/Value.antt =====
-- Decimals as they are shown.
use ze_db.Prelude.{◌≡◌, refl, arith}
use ze_db.Prelude.Text.{codes}
use ze_db.Wire.Types.{pos, negsuc}
use ze_db.Value.{display_decimal}
use ze_db.Value.Denotes.{Shows, display_decimal-Shows}

-- -0.05, and a scale out of range.
display_small : display_decimal (negsuc 4) 2 ≡ codes "-0.05"
unfolding display_decimal ze_db.Value.decimal ze_db.Value.decimal_loop ze_db.Value.pad
    ze_db.Value.zeros
display_small = refl

display_out_of_range : display_decimal (pos 7) 200 ≡ codes "7e-200"
unfolding display_decimal ze_db.Value.decimal ze_db.Value.decimal_loop
display_out_of_range = refl

display_decimal-Shows_example : Shows (negsuc 104) 2 (display_decimal (negsuc 104) 2)
display_decimal-Shows_example = display_decimal-Shows (negsuc 104) 2 (omega arith)
