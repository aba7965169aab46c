-- ===== src/Handlers/Optional/Steps.antt =====
-- The steps of HandleRegisterModuleExport: the parse, the calls behind it, and the registration.
use nxdk_dyndxt.Base.{
  ℕ, suc, ◌+◌, ◌^◌, ◌<◌, ◌≤◌, ◌≡◌, ◌≢◌, refl, ◌∙◌, Bool, true, none, some, List, [], ◌∷◌, Bytes,
  arith, ℤ, pos, length, ≢→==,
}
use nxdk_dyndxt.Pool.{Ptr, null, Heap, Allocator, Run, ok, update, c_string, free_string}
use nxdk_dyndxt.Pool.Alloc.{NeverRefuses}
use nxdk_dyndxt.Pool.Owned.{Owned-free}
use nxdk_dyndxt.Pool.Context.{IsContext-compose, Owned-out}
use nxdk_dyndxt.Pool.Strings.{c_string_idem}
use nxdk_dyndxt.Response.{def_success}
use nxdk_dyndxt.Command
use nxdk_dyndxt.Command.{CommandParameters}
use nxdk_dyndxt.Command.Errors.{codes}
use nxdk_dyndxt.Command.Frame.{lists, Kept, kept}
use nxdk_dyndxt.Command.Parse.{parse_into}
use nxdk_dyndxt.Command.Parse.Text.{parsed}
use nxdk_dyndxt.Command.Parse.Refines
use nxdk_dyndxt.Command.Parse.Refines.{Parsed, parse_into-Parsed}
use nxdk_dyndxt.Command.Storage.Holds.{Entry, Holds, Stored, Pair}
use nxdk_dyndxt.Command.Storage.Reserve.{nulls}
use nxdk_dyndxt.Command.Query.Lookup.{value_of}
use nxdk_dyndxt.Command.Query.{get_string}
use nxdk_dyndxt.Command.Numbers.{get_uint32}
use nxdk_dyndxt.Command.Storage.{delete}
use nxdk_dyndxt.Registry.Chains.{Module, read_string-Reads}
use nxdk_dyndxt.Registry.Model.{register}
use nxdk_dyndxt.Registry.Owns.{
  Item, export_of, entry_of, item_names, item_names-IsContext, all_names, all_names-IsContext,
}
use nxdk_dyndxt.Registry.Owns.Moves.{look-Owned}
use nxdk_dyndxt.Registry.Owns.Session.{Registered, register_method-Registered}
use nxdk_dyndxt.Handlers.{World, done}
use nxdk_dyndxt.Handlers.Exports.Registered.{copy_of, copy_of-c_string}
use nxdk_dyndxt.Handlers.Optional.{
  copy_string, save_name, register_saved, register_copies, handle_register_module_export,
}

-- Parameters that hold `kvs`
pub record HeldParameters (w₀ : Heap) (kvs : List Pair) (r : Run (ℤ × CommandParameters))
    : Type 0 where
  pub cp : CommandParameters
  pub es : List Entry
  pub room : ℕ
  pub n : ℕ
  pub h : Heap
  pub is : r ≡ ok (pos n, cp) h
  pub held : Holds w₀ h cp es (nulls room) (nulls room)
  pub stored : Stored es kvs
  pub same_lists : lists h ≡ lists w₀

pub parsed_parameters :
    {a : Allocator} {w₀ : Heap} {kvs : List Pair} {r : Run (ℤ × CommandParameters)}
    (key value : Bytes)
    → NeverRefuses a Command.k_tag
    → value_of key kvs ≡ some (some value)
    → Parsed a w₀ (parsed kvs) r
    → Kept (lists w₀) r
    → HeldParameters w₀ kvs r
parsed_parameters key value full there (Refines.stored {h} {cp} es room n count held st)
      (kept _ _ e) =
    record {
      cp = cp;
      es = es;
      room = room;
      n = n;
      h = h;
      is = refl;
      held = held;
      stored = st;
      same_lists = e;
    }
parsed_parameters key value full there (Refines.empty restored) k = absurd (ground arith)
parsed_parameters key value full there (Refines.out_of_memory restored (h, size, e)) k =
    absurd (full h size e)

-- MRRegisterMethod with the saved name, which is freed behind it
pub register_saved-Registered :
    (a : Allocator) (f k : ℕ) (h₀ : Heap) (p q : Ptr) (s : Bytes) (new : Item) (ms : List Module)
    (response_len : ℕ) (w : World)
    → NeverRefuses a nxdk_dyndxt.Registry.k_tag
    → length (c_string s) + 1 < 2 ^ 32
    → k ≤ f
    → Registered h₀ (item_names new ((q, copy_of (c_string s)) ∷ [])) k ms w.heap p
    → (v : World) × (p' : Ptr) × (register_saved a f p q (entry_of new) response_len w
        ≡ done (def_success 0, p') v)
      × Registered h₀ [] (suc k) (register (c_string s) (export_of new) ms) v.heap p'
unfolding register_saved free_string
register_saved-Registered a f k h₀ p q s new ms len w full short le r =
    let copy = copy_of (c_string s) in
    let (_, there) =
      look-Owned (λ bs. all_names r.tables (item_names new bs))
        (IsContext-compose (all_names r.tables) (item_names new) (all_names-IsContext r.tables)
          (item_names-IsContext new))
        q copy [] r.owns.strings in
    let text : c_string copy.bytes ≡ c_string s = copy_of-c_string (c_string s) ∙ c_string_idem s in
    let read = read_string-Reads w.heap q (c_string s) (copy, there, text) in
    let (h', p', run, r') =
      register_method-Registered a f k (c_string s) h₀ w.heap p new ((q, copy) ∷ []) ms full
        (rw (c_string_idem s) short) le r in
    let o =
      Owned-out (all_names r'.tables) (all_names-IsContext r'.tables) (q, copy) []
        r'.owns.strings in
    (
      record w { heap = record h' { strings = update h'.strings q none } },
      p',
      rw (read, run, free_string, o.held.0) refl,
      record {
        tables = r'.tables;
        owns = record {
          start = r'.owns.start;
          strings = Owned-free o;
          arrays = r'.owns.arrays;
          nodes = r'.owns.nodes;
          tables = r'.owns.tables;
        };
        room = r'.room;
        lasts = r'.lasts;
        holds = r'.holds;
      },
    )

-- The calls in front of the copies, one after the other
pub handle_run :
    (a : Allocator) (f : ℕ) (export_table : Ptr) (command : Bytes) (response_len : ℕ) (w : World)
    (h : Heap) (cp : CommandParameters) (n : ℕ) (module_at export_at alias_at : Ptr)
    (export_found alias_found : Bool) (ordinal address : ℕ)
    → parse_into a (some command) w.heap ≡ ok (pos n, cp) h
    → get_string (some (codes "module")) (some cp) h ≡ ok (true, module_at) h
    → get_string (some (codes "name")) (some cp) h ≡ ok (export_found, export_at) h
    → get_string (some (codes "alias")) (some cp) h ≡ ok (alias_found, alias_at) h
    → get_uint32 (some (codes "ordinal")) (some cp) h ≡ ok (true, ordinal) h
    → get_uint32 (some (codes "addr")) (some cp) h ≡ ok (true, address) h
    → handle_register_module_export a f export_table command response_len w
      ≡ register_copies a f export_table cp module_at export_found export_at alias_found alias_at
          ordinal address response_len
          (record w { heap = h })
unfolding handle_register_module_export
handle_run a f p command len w h cp n m_at n_at a_at n_found a_found ordinal address e e₁ e₂ e₃ e₄
      e₅ =
    rw (e, e₁, e₂, e₃, e₄, e₅) refl

pub copies_run :
    (a : Allocator) (f : ℕ) (export_table : Ptr) (cp cp' : CommandParameters)
    (module_at export_at alias_at q name alias : Ptr) (export_found alias_found : Bool)
    (ordinal address response_len : ℕ) (w : World) (h₂ h₃ h₄ h₅ : Heap)
    → copy_string a module_at w.heap ≡ ok q h₂
    → q ≢ null
    → save_name a export_found export_at h₂ ≡ ok (true, name) h₃
    → save_name a alias_found alias_at h₃ ≡ ok (true, alias) h₄
    → delete cp h₄ ≡ ok cp' h₅
    → register_copies a f export_table cp module_at export_found export_at alias_found alias_at
        ordinal address response_len w
      ≡ register_saved a f export_table q
          (record { ordinal = ordinal; method_name = name; alias = alias; address = address })
          response_len
          (record w { heap = h₅ })
unfolding register_copies
copies_run a f p cp cp' m_at n_at a_at q name alias n_found a_found ordinal address len w h₂ h₃ h₄
      h₅ e ne e₂ e₃ e₄ =
    rw (e, ≢→== q null ne, e₂, e₃, e₄) refl
