-- ===== src/Command/Tests.antt =====
-- The command processor run on inputs of test/command_processor_util/test_main.cpp, and its
-- theorems at concrete inputs.
use nxdk_dyndxt.Base.{
  ◌-◌, ◌^◌, ◌≡◌, ◌≢◌, refl, true, none, some, List, [], ◌∷◌, Bytes, arith, map, pos, negsuc,
}
use nxdk_dyndxt.Base.Format.{decimal}
use nxdk_dyndxt.Pool.{Heap, ok, fault, c_string, same_string}
use nxdk_dyndxt.Pool.Sample.{ascending, ascending-NeverRefuses, exhausted, fresh}
use nxdk_dyndxt.Command.{
  CommandParameters, k_tag, pcp_err_invalid_key, pcp_err_unterminated_quoted_key,
  pcp_err_unterminated_escape,
}
use nxdk_dyndxt.Command.Errors.{codes, print_error}
use nxdk_dyndxt.Command.Errors.Printed.{Prints, malformed_key, print_error-Announces}
use nxdk_dyndxt.Command.Scan.{first_non_space, scan}
use nxdk_dyndxt.Command.Storage.{unescape}
use nxdk_dyndxt.Command.Storage.Holds.{Pair}
use nxdk_dyndxt.Command.Parse.{parse_into}
use nxdk_dyndxt.Command.Parse.Text.{parsed, rejected, undefined, read_text}
use nxdk_dyndxt.Command.Parse.Refines.{Parsed, parse_into-Parsed}
use nxdk_dyndxt.Command.Parse.Escapes.{returned, parse_into-ne-unterminated_escape}
use nxdk_dyndxt.Command.Parse.Overread.{cut_off, parse_into-cut_off}
use nxdk_dyndxt.Command.Parse.Inside.{parse_into-ne-fault}
use nxdk_dyndxt.Command.Parse.Print.{print, escape}
use nxdk_dyndxt.Command.Session.{Session, parse_into-print}
use nxdk_dyndxt.Command.Numbers.{strtoul, strtol, get_uint32, skip_spaces, scan_digits, scan_number}
use nxdk_dyndxt.Command.Numbers.Decimal.{get_uint32-parse_into}

abbrev many_keys : Bytes
many_keys =
    codes "test=\"escaped \\\" quote\" test2=value2 test3 test4=\"value4\" test5 test6 test7"

many_keys_test :
    read_text many_keys
    ≡ parsed (
        (codes "test", some (codes "escaped \" quote"))
        ∷ (codes "test2", some (codes "value2"))
        ∷ (codes "test3", none)
        ∷ (codes "test4", some (codes "value4"))
        ∷ (codes "test5", none)
        ∷ (codes "test6", none)
        ∷ (codes "test7", none)
        ∷ [])
unfolding read_text first_non_space scan unescape
many_keys_test = refl

invalid_key_test : read_text (codes "=keyless_value") ≡ rejected pcp_err_invalid_key
unfolding read_text first_non_space scan
invalid_key_test = refl

empty_value_test :
    read_text (codes "a=\"\" b=") ≡ parsed ((codes "a", none) ∷ (codes "b", none) ∷ [])
unfolding read_text first_non_space scan
empty_value_test = refl

unterminated_quote_test : read_text (codes "a=\"b") ≡ rejected pcp_err_unterminated_quoted_key
unfolding read_text first_non_space scan
unterminated_quote_test = refl

overread_test : read_text (codes "a=\"b\\") ≡ undefined
unfolding read_text first_non_space scan
overread_test = refl

printed_test :
    print ((codes "k", some (codes "a\"b")) ∷ (codes "x", none) ∷ []) ≡ codes "k=\"a\\\"b\" x "
unfolding escape
printed_test = refl

-- Five entries, so that the arrays grow once; one key occurs twice, and two values need escapes.
abbrev five_pairs : List Pair
five_pairs =
    (codes "a", some (codes "1"))
    ∷ (codes "b", none)
    ∷ (codes "path", some (codes "E:\\x \"y\""))
    ∷ (codes "a", some (codes "2"))
    ∷ (codes "e", some (codes " = "))
    ∷ []

parse_into-print_example :
    Session fresh five_pairs (parse_into ascending (some (print five_pairs)) fresh)
unfolding escape
parse_into-print_example =
    parse_into-print ascending fresh five_pairs (ascending-NeverRefuses k_tag) (ground arith)
      (omega arith)

parse_into-Parsed_example :
    Parsed exhausted fresh (read_text many_keys) (parse_into exhausted (some many_keys) fresh)
parse_into-Parsed_example = parse_into-Parsed exhausted fresh many_keys (omega arith)

parse_into-ne-fault_example : parse_into ascending (some (codes "a=\"b c\" d")) fresh ≢ fault
parse_into-ne-fault_example =
    parse_into-ne-fault ascending fresh (codes "a=\"b c\" d") (omega arith) refl

parse_into-cut_off_example :
    parse_into ascending (some (cut_off (codes "size") (codes "4\"2"))) fresh ≡ fault
unfolding escape
parse_into-cut_off_example =
    parse_into-cut_off ascending fresh (codes "size") (codes "4\"2") (ascending-NeverRefuses k_tag)
      (ground arith) (ground arith) (ground arith) (omega arith)

parse_into-ne-unterminated_escape_example :
    returned (parse_into ascending (some (codes "a=\"b\\\"c\" d=\\")) fresh)
    ≢ some pcp_err_unterminated_escape
parse_into-ne-unterminated_escape_example =
    parse_into-ne-unterminated_escape ascending fresh (codes "a=\"b\\\"c\" d=\\") (omega arith)

-- Hexadecimal and octal digits, a sign in front of an unsigned number, an overflow, and the rest
strtoul_test :
    map strtoul (codes "0x1F" ∷ codes " 017" ∷ codes "-1" ∷ codes "5000000000z" ∷ [])
    ≡ (31, []) ∷ (15, []) ∷ (2 ^ 32 - 1, []) ∷ (2 ^ 32 - 1, codes "z") ∷ []
unfolding strtoul skip_spaces scan_digits scan_number
strtoul_test = refl

strtol_test :
    map strtol (codes "-42" ∷ codes "-2147483649" ∷ codes "0x" ∷ codes "none" ∷ [])
    ≡ (negsuc 41, []) ∷ (negsuc (2 ^ 31 - 1), []) ∷ (pos 0, codes "x") ∷ (pos 0, codes "none") ∷ []
unfolding strtol skip_spaces scan_digits scan_number
strtol_test = refl

get_uint32-parse_into_example :
    (cp : CommandParameters) × (h : Heap) × (parse_into ascending (some (print five_pairs)) fresh
      ≡ ok (pos 5, cp) h)
    × (get_uint32 (some (codes "a")) (some cp) h ≡ ok (true, 1) h)
unfolding decimal same_string c_string escape
get_uint32-parse_into_example =
    get_uint32-parse_into ascending fresh five_pairs (codes "a") 1 (ascending-NeverRefuses k_tag)
      (ground arith) (omega arith) refl (omega arith)

print_error-Announces_example :
    Prints
      (record { size = 64; bytes = [] })
      (print_error pcp_err_invalid_key (record { size = 64; bytes = [] }) 64)
      (codes "Malformed key")
      0x82DB0005
print_error-Announces_example =
    print_error-Announces pcp_err_invalid_key (codes "Malformed key") 0x82DB0005
      (record { size = 64; bytes = [] }) 64 malformed_key (omega arith) (omega arith) (omega arith)
