-- ===== src/Command/Scan.antt =====
-- The pointer walks of src/command_processor_util.c: FirstNonSpace, KeyEnd, ValueEnd, and what
-- the loop of CPParseCommandParameters reads before it appends. A `const char *` into the input
-- is the list of the characters from there to the terminator; `none` is a read behind that.
pub mod Cases
pub mod Lengths
pub mod Escapes
use nxdk_dyndxt.Base.{
  ℕ, ◌-◌, Bool, true, false, not, ◌&&◌, ◌||◌, Option, none, some, [], ◌∷◌, Bytes, ◌==◌,
  if◌then◌else◌, length, take, drop,
}

-- `*input`
abbrev pub deref : Bytes → ℕ
deref [] = 0
deref (c ∷ s) = c

-- FirstNonSpace
unfoldable pub first_non_space : Bytes → Bytes
first_non_space [] = []
first_non_space (c ∷ s) = if not (c == 0) && c == b' ' then first_non_space s else c ∷ s

-- KeyEnd
unfoldable pub key_end : Bytes → Bytes
key_end [] = []
key_end (c ∷ s) = if not (c == 0) && not (c == b' ') && not (c == b'=') then key_end s else c ∷ s

-- The loop of ValueEnd behind an opening quotation mark, with the flag `*has_escaped_values`.
-- After a backslash the pointer moves by two; from the last character that is past the end.
unfoldable pub quoted_end : Bytes → Bool → Option (Bytes × Bool)
quoted_end [] escaped = some ([], escaped)
quoted_end (c ∷ []) escaped =
    if c == 0 || c == b'"'
    then some (c ∷ [], escaped)
    else if c == b'\\'
    then none
    else some ([], escaped)
quoted_end (c ∷ d ∷ s) escaped =
    let skipped = quoted_end s true in
    let next = quoted_end (d ∷ s) escaped in
    if c == 0 || c == b'"' then some (c ∷ d ∷ s, escaped) else if c == b'\\' then skipped else next

-- The loop of ValueEnd for a value without quotation marks.
unfoldable pub unquoted_end : Bytes → Bytes
unquoted_end [] = []
unquoted_end (c ∷ s) = if not (c == 0) && not (c == b' ') then unquoted_end s else c ∷ s

-- ValueEnd
unfoldable pub value_end : Bytes → Option (Bytes × Bool)
unfolding quoted_end unquoted_end
value_end s =
    if not (deref s == 0) && deref s == b'"'
    then quoted_end (drop 1 s) false
    else some (unquoted_end s, false)

-- What one round of the parse loop finds at `key_start`. The key and the value are the ranges
-- `key_start .. key_end` and `value_start .. value_end`; `value = none` is `value_start == NULL`.
pub record Item : Type 0 where
  pub key : Bytes
  pub value : Option Bytes
  pub value_needs_unescaping : Bool
  pub entry_end : Bytes

pub data Scan : Type 0 where
  item : Item → Scan
  invalid_key : Scan
  unterminated_quote : Scan
  overread : Scan

-- The characters from `start` up to the later pointer `end`.
abbrev pub range : Bytes → Bytes → Bytes
range start end = take (length start - length end) start

-- The part of the round behind `if (*key_end == '=')`, with what ValueEnd returned.
unfoldable pub scan_value : Bytes → Bytes → Option (Bytes × Bool) → Scan
scan_value key value_start none = overread
scan_value key value_start (some (value_end, escaped)) =
    if deref value_start == b'"'
    then (if not (deref value_end == b'"')
        then unterminated_quote
        else item (record {
          key = key;
          value = some (range (drop 1 value_start) value_end);
          value_needs_unescaping = escaped;
          entry_end = drop 1 value_end;
        }))
    else item (record {
      key = key;
      value = some (range value_start value_end);
      value_needs_unescaping = escaped;
      entry_end = value_end;
    })

unfoldable pub scan : Bytes → Scan
unfolding key_end scan_value value_end
scan key_start =
    let end = key_end key_start in
    if length end == length key_start
    then invalid_key
    else if deref end == b'='
    then scan_value (range key_start end) (drop 1 end) (value_end (drop 1 end))
    else item (record {
      key = range key_start end;
      value = none;
      value_needs_unescaping = false;
      entry_end = end;
    })
