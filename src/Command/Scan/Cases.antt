-- ===== src/Command/Scan/Cases.antt =====
-- What a round of the parse loop may find, to split on with the equation kept.
use nxdk_dyndxt.Base.{◌≡◌, refl}
use nxdk_dyndxt.Command.Scan.{Item, Scan, item, invalid_key, unterminated_quote, overread}

pub data ScanCases (r : Scan) : Type 0 where
  found : (it : Item) → r ≡ item it → ScanCases r
  bad_key : r ≡ invalid_key → ScanCases r
  no_quote : r ≡ unterminated_quote → ScanCases r
  beyond : r ≡ overread → ScanCases r

pub scan_cases : (r : Scan) → ScanCases r
scan_cases (item it) = found it refl
scan_cases invalid_key = bad_key refl
scan_cases unterminated_quote = no_quote refl
scan_cases overread = beyond refl
