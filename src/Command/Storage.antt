-- ===== src/Command/Storage.antt =====
-- How src/command_processor_util.c stores parameters: CommandParametersReserve,
-- CommandParametersAppend and CPDelete. A `CommandParameters *` is passed in and its new value
-- returned. Sizes are 32-bit, as on the target; a length of a string in memory fits.
pub mod Holds
pub mod Delete
pub mod Reserve
pub mod Grow
pub mod Append
pub mod Extend
use nxdk_dyndxt.Base.{
  ℕ, zero, suc, ◌+◌, ◌-◌, ◌*◌, ◌%◌, ◌^◌, Bool, true, false, not, none, some, [], ◌∷◌, ◌++◌, Bytes,
  ◌==◌, leb, if◌then◌else◌, ℤ, pos, length,
}
use nxdk_dyndxt.Pool.{
  Ptr, null, Allocator, M, pure, ◌>>=◌, ◌>>◌, crash, alloc_string, alloc_array, free_string,
  free_array, write_string, read_slot, write_slot, copy_slots,
}
use nxdk_dyndxt.Command.{
  CommandParameters, k_tag, zeroed, pcp_err_out_of_memory, pcp_err_unterminated_escape,
}
use nxdk_dyndxt.Command.Scan.{Item}

-- `if (cp->keys && cp->keys[i]) DmFreePool(cp->keys[i]);`, for either array
unfoldable pub free_entry : Ptr → ℕ → M (Unit {0})
unfolding read_slot free_string
free_entry array i =
    if array == null
    then pure tt
    else do q ← read_slot array i; if q == null then pure tt else free_string q

-- The loop of CPDelete, with the rounds that are left.
unfoldable pub delete_loop : ℕ → ℕ → CommandParameters → M (Unit {0})
delete_loop zero i cp = pure tt
delete_loop (suc n) i cp = do free_entry cp.keys i; free_entry cp.values i; delete_loop n (i + 1) cp

-- `if (cp->keys) { DmFreePool(cp->keys); cp->keys = NULL; }`, for either array
unfoldable pub free_slots : Ptr → M (Unit {0})
free_slots array = if array == null then pure tt else free_array array

-- CPDelete
unfoldable pub delete : CommandParameters → M CommandParameters
delete cp = do delete_loop cp.entries 0 cp; free_slots cp.keys; free_slots cp.values; pure zeroed

-- `if (cp->keys) { memcpy(new_keys, cp->keys, …); DmFreePool(cp->keys); }`, for either array
unfoldable pub move_slots : (dst src : Ptr) → ℕ → M (Unit {0})
move_slots dst src n = if src == null then pure tt else do copy_slots dst src n; free_array src

-- `for (i = cp->entries; i < max_entries; ++i)`, with the rounds that are left
unfoldable pub clear_slots : ℕ → ℕ → CommandParameters → M (Unit {0})
clear_slots zero i cp = pure tt
clear_slots (suc n) i cp = do
  write_slot cp.keys i null
  write_slot cp.values i null
  clear_slots n (i + 1) cp

module _ (a : Allocator) where
  -- CommandParametersReserve, from `char **new_values = …` on
  unfoldable pub reserve_values : ℕ → CommandParameters → M (Bool × CommandParameters)
  reserve_values max_entries cp = do
    new_values ← alloc_array a ((4 * max_entries) % 2 ^ 32) k_tag
    if new_values == null then pure (false, cp) else do
      move_slots new_values cp.values cp.entries
      let grown : CommandParameters = record cp { values = new_values }
      clear_slots (max_entries - cp.entries) cp.entries grown
      pure (true, grown)

  -- CommandParametersReserve
  unfoldable pub reserve : ℕ → CommandParameters → M (Bool × CommandParameters)
  reserve max_entries cp = do
    new_keys ← alloc_array a ((4 * max_entries) % 2 ^ 32) k_tag
    if new_keys == null then pure (false, cp) else do
      move_slots new_keys cp.keys cp.entries
      reserve_values max_entries (record cp { keys = new_keys })

-- The unescaping loop: what it writes to `dest`, and whether it reached the end of the value.
unfoldable pub unescape : Bytes → Bytes × Bool
unescape [] = ([], true)
unescape (c ∷ []) = if c == b'\\' then ([], false) else (c ∷ [], true)
unescape (c ∷ d ∷ s) = elim (c == b'\\') [
  | true ↦ let (written, complete) = unescape s in (d ∷ written, complete)
  | false ↦ let (written, complete) = unescape (d ∷ s) in (c ∷ written, complete)
]

-- `*dest = 0; return 0`, or the error that the loop returns; the pointer `dest` starts at `p`.
unfoldable pub fill_unescaped : Ptr → Bytes × Bool → M ℤ
fill_unescaped p (written, true) = do write_string p (written ++ 0 ∷ []); pure (pos 0)
fill_unescaped p (written, false) = do write_string p written; pure pcp_err_unterminated_escape

-- The value's copy: the code that the rest of CommandParametersAppend returns.
unfoldable pub fill_value : Ptr → Bytes → Bool → M ℤ
unfolding fill_unescaped
fill_value p value needs_unescaping =
    if not needs_unescaping
    then (do write_string p (value ++ 0 ∷ []); pure (pos 0))
    else fill_unescaped p (unescape value)

module _ (a : Allocator) where
  -- `if (value_start && value_start != value_end) …; return 0;`
  unfoldable pub append_value : ℕ → Item → CommandParameters → M ℤ
  unfolding fill_value
  append_value index it cp = elim it.value [
    | none ↦ pure (pos 0)
    | some value ↦ if length value == 0 then pure (pos 0) else do
      p ← alloc_string a (1 + length value) k_tag
      write_slot cp.values index p
      if p == null then pure pcp_err_out_of_memory else fill_value p value it.value_needs_unescaping
  ]

  -- CommandParametersAppend, from `int32_t index = cp->entries;` on
  unfoldable pub append_entry : Item → CommandParameters → M (ℤ × CommandParameters)
  append_entry it cp = do
    p ← alloc_string a (1 + length it.key) k_tag
    write_slot cp.keys cp.entries p
    if p == null then pure (pcp_err_out_of_memory, cp) else do
      write_string p (it.key ++ 0 ∷ [])
      code ← append_value cp.entries it cp
      pure (code, record cp { entries = cp.entries + 1 })

  -- CommandParametersAppend: its return code, `*max_entries` and `*cp`. Doubling past an
  -- `int32_t` is undefined.
  unfoldable pub append : ℕ → Item → CommandParameters → M (ℤ × ℕ × CommandParameters)
  append max_entries it cp =
      if cp.entries == max_entries
      then (if leb (2 ^ 31) (max_entries * 2) then crash else do
        (done, cp') ← reserve a (max_entries * 2) cp
        if not done
            then pure (pcp_err_out_of_memory, max_entries * 2, cp')
            else do (code, cp'') ← append_entry it cp'; pure (code, max_entries * 2, cp''))
      else do (code, cp') ← append_entry it cp; pure (code, max_entries, cp')
