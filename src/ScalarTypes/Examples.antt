-- ===== src/ScalarTypes/Examples.antt =====
-- Values against types of scalar_types.py's table, as tests/test_scalar_types.py asks of them.
use intj.Prelude.{◌≡◌, refl, true, false, some, ◌↔◌}
use intj.Prelude.Int.{pos, negsuc}
use intj.Values.{Value}
use intj.ScalarTypes.{
  find_scalar, scalar_of, is_integer, is_float, key_bytes, narrowness, narrower, fits_scalar, fits,
  argument, constexpr, Kind, scalar,
}
use intj.ScalarTypes.Fits.{converted, fits_iff_converted}
use intj.ScalarTypes.Payload.{payload-separates}

-- Every declaration that unfolds it computes with the definitions named here.
program : Unit {0}
unfolding find_scalar scalar_of is_integer is_float key_bytes narrowness narrower fits_scalar fits
program = tt

fits-i8_bounds :
    (fits (Value.int (negsuc 127)) (some "i8") argument ≡ true)
    × (fits (Value.int (pos 128)) (some "i8") argument ≡ false)
unfolding program
fits-i8_bounds = (refl, refl)

fits-bool :
    (fits (Value.bool true) (some "u1") argument ≡ true)
    × (fits (Value.bool true) (some "i32") argument ≡ false)
unfolding program
fits-bool = (refl, refl)

narrower-fp : narrower (narrowness (some "fp64")) (narrowness (some "fp32")) ≡ false
unfolding program
narrower-fp = refl

fits_iff_converted_example :
    (fits (Value.int (negsuc 127)) (some "i8") argument ≡ true)
    ↔ (converted (scalar "i8" Kind.signed 8) (negsuc 127) ≡ negsuc 127)
unfolding program
fits_iff_converted_example = fits_iff_converted "i8" (negsuc 127) argument refl refl

payload-separates_example : pos 200 ≡ pos 200
unfolding program
payload-separates_example = payload-separates constexpr "u8" (pos 200) (pos 200) refl refl refl refl
