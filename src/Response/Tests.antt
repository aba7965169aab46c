-- ===== src/Response/Tests.antt =====
-- The error responses at concrete inputs.
use Prim.Native.Char.{code}
use Prim.Native.String.{String}
use nxdk_dyndxt.Base.{◌≡◌, refl, none, some, [], ◌∷◌, ◌++◌, Bytes, arith, take}
use nxdk_dyndxt.Pool.{Text, c_string}
use nxdk_dyndxt.Response.{set_xbdm_error, set_xbdm_error_with_suffix}
use nxdk_dyndxt.Response.Truncate.{set_xbdm_error_with_suffix-take, set_xbdm_error_overrun}

abbrev codes : String → Bytes
codes String.[] = []
codes (String.◌∷◌ c s) = code c ∷ codes s

abbrev eight_bytes : Text
eight_bytes = record { size = 8; bytes = [] }

set_xbdm_error_with_suffix-take_example :
    set_xbdm_error_with_suffix 5 (codes "load ") (codes "failed") eight_bytes 7
    ≡ some (
      5,
      record {
        size = 8;
        bytes = take 7 (c_string (codes "load ") ++ c_string (codes "failed")) ++ 0 ∷ [];
      },
    )
unfolding c_string
set_xbdm_error_with_suffix-take_example =
    set_xbdm_error_with_suffix-take 5 (codes "load ") (codes "failed") eight_bytes 7 (omega arith)
      (omega arith)

set_xbdm_error_overrun_example : set_xbdm_error 5 (codes "load failed") eight_bytes 8 ≡ none
unfolding c_string
set_xbdm_error_overrun_example =
    set_xbdm_error_overrun 5 (codes "load failed") eight_bytes 8 refl (omega arith) (omega arith)
