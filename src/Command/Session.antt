-- ===== src/Command/Session.antt =====
-- A caller's whole use of the parameters: parse, look up, delete.
use nxdk_dyndxt.Base.{◌^◌, ◌<◌, ◌≡◌, refl, Bool, false, some, List, Bytes, ℤ, pos, length}
use nxdk_dyndxt.Pool.{Ptr, null, Heap, Allocator, Run, ok}
use nxdk_dyndxt.Pool.Alloc.{NeverRefuses}
use nxdk_dyndxt.Command.{CommandParameters, zeroed, k_tag}
use nxdk_dyndxt.Command.Storage.{delete, delete_loop, free_slots}
use nxdk_dyndxt.Command.Storage.Holds.{Pair, Restored}
use nxdk_dyndxt.Command.Storage.Delete.{delete-Restored}
use nxdk_dyndxt.Command.Storage.Reserve.{nulls}
use nxdk_dyndxt.Command.Parse.{parse_into}
use nxdk_dyndxt.Command.Parse.Text.{parsed}
use nxdk_dyndxt.Command.Parse.Refines
use nxdk_dyndxt.Command.Parse.Refines.{Parsed, parse_into-Parsed}
use nxdk_dyndxt.Command.Parse.Print.{print, ArePrintable, read_text-print}
use nxdk_dyndxt.Command.Query.{has_key, get_string}
use nxdk_dyndxt.Command.Query.Lookup.{
  value_of, is_present, Answers, has_key-value_of, get_string-value_of,
}

-- The result of a parse of `kvs`: the count is returned, both lookups see the list, and a delete
-- gives all memory back.
pub record Session (h₀ : Heap) (kvs : List Pair) (run : Run (ℤ × CommandParameters)) : Type 0 where
  pub cp : CommandParameters
  pub h : Heap
  pub returned : run ≡ ok (pos (length kvs), cp) h
  pub found : (key : Bytes) → has_key (some key) (some cp) h ≡ ok (is_present (value_of key kvs)) h
  pub got :
      (key : Bytes)
      → (r : Bool × Ptr) × (get_string (some key) (some cp) h ≡ ok r h)
        × Answers h (value_of key kvs) r
  pub deleted : (h' : Heap) × (delete cp h ≡ ok zeroed h') × Restored h₀ h'

Parsed-Session :
    {a : Allocator} {h₀ : Heap} {kvs : List Pair} {r : Run (ℤ × CommandParameters)}
    → NeverRefuses a k_tag
    → Parsed a h₀ (parsed kvs) r
    → Session h₀ kvs r
unfolding has_key get_string delete delete_loop free_slots
Parsed-Session full (Refines.stored {h} {cp} {kvs} es room n count held st) = record {
  cp = cp;
  h = h;
  returned = rw count refl;
  found = λ key. has_key-value_of (nulls room) (nulls room) kvs key held st;
  got = λ key. get_string-value_of (nulls room) (nulls room) kvs key held st;
  deleted = delete-Restored (nulls room) (nulls room) held;
}
Parsed-Session full (Refines.empty {h} restored) = record {
  cp = zeroed;
  h = h;
  returned = refl;
  found = λ key. refl;
  got = λ key. ((false, null), refl, (refl, refl));
  deleted = (h, refl, restored);
}
Parsed-Session full (Refines.out_of_memory restored (h, size, e)) = absurd (full h size e)

-- For printable keys and values whose printed text is shorter than 2 ^ 28 characters, and an
-- allocator that never refuses, the parse of the print returns the number of pairs, CPHasKey and
-- CPGetString answer for every key as a search in the list from its front does, and CPDelete
-- restores the heap.
pub parse_into-print :
    (a : Allocator) (h₀ : Heap) (kvs : List Pair)
    → NeverRefuses a k_tag
    → ArePrintable kvs
    → length (print kvs) < 2 ^ 28
    → Session h₀ kvs (parse_into a (some (print kvs)) h₀)
parse_into-print a h₀ kvs full printable small =
    Parsed-Session full
      (rw (read_text-print kvs printable) at (parse_into-Parsed a h₀ (print kvs) small))
