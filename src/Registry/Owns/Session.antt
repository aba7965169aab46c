-- ===== src/Registry/Owns/Session.antt =====
-- A registry with all that a caller of src/module_registry.c has to know of it, through any number
-- of calls: the blocks that it owns, the modules that it stands for, and a bound on its lists.
use nxdk_dyndxt.Base.{
  ℕ, suc, ◌+◌, ◌<◌, ◌≤◌, ◌^◌, ◌≡◌, refl, ap, true, List, [], ◌∷◌, Bytes, arith, length,
}
use nxdk_dyndxt.Pool.{Ptr, null, Text, Heap, Allocator, ok, c_string}
use nxdk_dyndxt.Pool.Alloc.{NeverRefuses}
use nxdk_dyndxt.Pool.Owned.{Owned-nil}
use nxdk_dyndxt.Registry.{k_tag, get_method_by_ordinal}
use nxdk_dyndxt.Registry.Update.{register_method, reset_registry}
use nxdk_dyndxt.Registry.Chains.{Module, HaveRoom}
use nxdk_dyndxt.Registry.Lookup.{lookup, has_ordinal, get_method_by_ordinal-lookup}
use nxdk_dyndxt.Registry.Model.{register, length-register, register-HaveRoom}
use nxdk_dyndxt.Registry.Owns.{
  Item, Table, entry_of, export_of, item_names, modules_of, Owns, Lasts, AllRestored,
}
use nxdk_dyndxt.Registry.Owns.Lookup.{
  length-modules_of, length-exports_of, Lasts-HaveRoom, Owns-IsRegistry,
}
use nxdk_dyndxt.Registry.Owns.Register.{register_method-register}
use nxdk_dyndxt.Registry.Owns.Reset.{reset_registry-AllRestored}

-- The registry at `p` owns its blocks, beside the strings `extra`, and stands for `ms`; each of its
-- lists has fewer than `k` items.
pub record Registered (h₀ : Heap) (extra : List (Ptr × Text)) (k : ℕ) (ms : List Module) (h : Heap)
    (p : Ptr) : Type 0 where
  pub tables : List Table
  pub owns : Owns h₀ h p extra tables
  pub room : length tables < k
  pub lasts : Lasts k tables
  pub holds : modules_of tables ≡ ms

HaveRoom-Lasts : (f : ℕ) (ts : List Table) → HaveRoom f (modules_of ts) → Lasts f ts
HaveRoom-Lasts f [] l = l
HaveRoom-Lasts f (t ∷ ts) l = (rw (← length-exports_of t.nodes) l.0, HaveRoom-Lasts f ts l.1)

Lasts-≤ : (k f : ℕ) (ts : List Table) → k ≤ f → Lasts k ts → Lasts f ts
Lasts-≤ k f [] le l = omega arith
Lasts-≤ k f (t ∷ ts) le l = (omega arith, Lasts-≤ k f ts le l.1)

-- No registry: `export_table` is NULL.
pub empty-Registered : (h : Heap) → Registered h [] 1 [] h null
empty-Registered h = record {
  tables = [];
  owns = record {
    start = refl;
    strings = Owned-nil (λ q. refl);
    arrays = λ q. refl;
    nodes = Owned-nil (λ q. refl);
    tables = Owned-nil (λ q. refl);
  };
  room = omega arith;
  lasts = omega arith;
  holds = refl;
}

pub register_method-Registered :
    (a : Allocator) (f k : ℕ) (s : Bytes) (h₀ h : Heap) (p : Ptr) (new : Item)
    (more : List (Ptr × Text)) (ms : List Module)
    → NeverRefuses a k_tag
    → length (c_string s) + 1 < 2 ^ 32
    → k ≤ f
    → Registered h₀ (item_names new more) k ms h p
    → (h' : Heap) × (p' : Ptr) × (register_method a f p s (entry_of new) h ≡ ok (true, p') h')
      × Registered h₀ more (suc k) (register s (export_of new) ms) h' p'
register_method-Registered a f k s h₀ h p new more ms full short le r =
    let done =
      register_method-register a f s h₀ h p new more r.tables full short r.owns (omega arith)
        (Lasts-≤ k f r.tables le r.lasts) in
    let count : length (register s (export_of new) (modules_of r.tables)) < suc k =
      length-register k s (export_of new) (modules_of r.tables)
        (rw (length-modules_of r.tables) r.room) in
    let fits =
      register-HaveRoom k s (export_of new) (modules_of r.tables)
        (Lasts-HaveRoom k r.tables r.lasts) in
    (
      done.heap,
      done.start,
      done.is,
      record {
        tables = done.tables;
        owns = done.owns;
        room = rw (← length-modules_of done.tables, done.holds) count;
        lasts = HaveRoom-Lasts (suc k) done.tables (rw done.holds fits);
        holds = rw done.holds (ap (register s (export_of new)) r.holds);
      },
    )

pub reset_registry-Registered :
    (f k : ℕ) (h₀ h : Heap) (p : Ptr) (ms : List Module)
    → k ≤ f
    → Registered h₀ [] k ms h p
    → (h' : Heap) × (reset_registry f p h ≡ ok null h') × AllRestored h₀ h'
reset_registry-Registered f k h₀ h p ms le r =
    reset_registry-AllRestored f h₀ h p r.tables r.owns (omega arith)
      (Lasts-≤ k f r.tables le r.lasts)

pub get_method_by_ordinal-Registered :
    (f k : ℕ) (h₀ h : Heap) (p : Ptr) (extra : List (Ptr × Text)) (ms : List Module) (s : Bytes)
    (ordinal : ℕ)
    → k ≤ f
    → Registered h₀ extra k ms h p
    → get_method_by_ordinal f p s ordinal h ≡ ok (lookup s (has_ordinal ordinal) ms) h
get_method_by_ordinal-Registered f k h₀ h p extra ms s ordinal le r = rw (← r.holds) (
    get_method_by_ordinal-lookup f h p (modules_of r.tables) s ordinal
      (Owns-IsRegistry h₀ h p extra r.tables r.owns) (rw (length-modules_of r.tables) (omega arith))
      (Lasts-HaveRoom f r.tables (Lasts-≤ k f r.tables le r.lasts)))
