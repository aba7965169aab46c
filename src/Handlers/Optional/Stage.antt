-- ===== src/Handlers/Optional/Stage.antt =====
-- The heap in the middle of HandleRegisterModuleExport: the registry, copies of strings, and the
-- parameters, which are freed before the registration.
use mathlib.Core.Path.{subst}
use nxdk_dyndxt.Base.{
  ℕ, ◌+◌, ◌^◌, ◌<◌, ◌≡◌, ◌≢◌, refl, sym, ap, ◌∙◌, Bool, true, none, some, Option, List, [], ◌∷◌,
  ◌++◌, Bytes, map, length, ≢→==, ==_refl,
}
use nxdk_dyndxt.Pool.{
  Ptr, null, Text, Slots, Heap, Region, Allocator, Run, ok, look, update, tick, c_string,
}
use nxdk_dyndxt.Pool.Alloc.{NeverRefuses}
use nxdk_dyndxt.Pool.Owned.{Owned, Owned-cons}
use nxdk_dyndxt.Pool.Regions.{Owned-≡, Owned-give, look-Owned_cons}
use nxdk_dyndxt.Pool.Context.{IsContext, IsContext-compose, Owned-in}
use nxdk_dyndxt.Pool.Strings.{c_string_idem}
use nxdk_dyndxt.Command.{CommandParameters, zeroed}
use nxdk_dyndxt.Command.Frame.{Lists, lists, kept, Kept}
use nxdk_dyndxt.Command.Frame.Parse.{delete-Kept}
use nxdk_dyndxt.Command.Storage.{delete}
use nxdk_dyndxt.Command.Storage.Holds.{Entry, blocks, key_slot, value_slot, IsText}
use nxdk_dyndxt.Command.Storage.Delete.{delete-Restored}
use nxdk_dyndxt.Command.Query.Lookup.{Answers, read_string-at}
use nxdk_dyndxt.Registry.Chains.{Module}
use nxdk_dyndxt.Registry.Update.{pool_strdup}
use nxdk_dyndxt.Registry.Owns.{
  Name, name_at, text_of, name_block, all_names, all_names-IsContext, all_nodes, tables_to,
}
use nxdk_dyndxt.Registry.Owns.NewTable.{pool_strdup-Owned}
use nxdk_dyndxt.Registry.Owns.Session.{Registered}
use nxdk_dyndxt.Handlers.{k_tag}
use nxdk_dyndxt.Handlers.Exports.Registered.{copy_of, copy_of-c_string}
use nxdk_dyndxt.Handlers.Optional.{copy_string, save_name}

kept_lists :
    {A : Type 0} {b : Lists} {r : Run A} {x : A} {h : Heap} → r ≡ ok x h → Kept b r → lists h ≡ b
kept_lists {b} e k = ended (subst (Kept b) e k)
  where
    ended : {A : Type 0} {b : Lists} {x : A} {h : Heap} → Kept b (ok x h) → lists h ≡ b
    ended (kept x h same) = same

-- What a value stands for, where there is one
abbrev pub given : Option (Option Bytes) → Option Bytes
given (some (some v)) = some (c_string v)
given _ = none

abbrev pub IsShort : Option (Option Bytes) → Type 0
IsShort (some (some v)) = length (c_string v) + 1 < 2 ^ 32
IsShort _ = Unit

module _ (w₀ : Heap) (cp : CommandParameters) (es : List Entry) (kt vt : Slots) (h₀ : Heap) (k : ℕ)
    (ms : List Module) (p : Ptr) where
  -- The parameters stand on top of a registry that owns the strings `extra`.
  pub record Stage (extra : List (Ptr × Text)) (h : Heap) : Type 0 where
    pub base : Region Text
    pub params : Owned (blocks es) base h.strings
    pub arrays :
        Owned
          ((cp.keys, map key_slot es ++ kt) ∷ (cp.values, map value_slot es ++ vt) ∷ [])
          w₀.arrays
          h.arrays
    pub same_lists : lists h ≡ lists w₀
    pub registered : Registered h₀ extra k ms (record w₀ { strings = base }) p

  -- A new heap in which every string of the old one still stands
  abbrev pub Keeps : Heap → Heap → Type 0
  Keeps h h' = (q : Ptr) (t : Text) → look h.strings q ≡ some t → look h'.strings q ≡ some t

  Stage-strdup :
      (a : Allocator) (s : Bytes) (h : Heap) (l : List (Ptr × Text) → List (Ptr × Text))
      (bs : List (Ptr × Text))
      → IsContext l
      → NeverRefuses a k_tag
      → length (c_string s) + 1 < 2 ^ 32
      → Stage (l bs) h
      → (q : Ptr) × (h' : Heap) × (pool_strdup a s k_tag h ≡ ok q h')
        × (q ≢ null)
        × Stage (l ((q, copy_of s) ∷ bs)) h'
        × Keeps h h'
  Stage-strdup a s h l bs c full short st =
      let (q, g, run, ne, o) = pool_strdup-Owned a s k_tag h (blocks es) full short st.params in
      let r = st.registered in
      let free : look st.base q ≡ none = o.new q (rw (==_refl q) refl) in
      (
        q,
        record (tick h) { strings = g },
        run,
        ne,
        record {
          base = update st.base q (some (copy_of s));
          params = Owned-give q (copy_of s) o;
          arrays = st.arrays;
          same_lists = st.same_lists;
          registered = record {
            tables = r.tables;
            owns = record {
              start = r.owns.start;
              strings =
                  Owned-in (λ cs. all_names r.tables (l cs))
                    (IsContext-compose (all_names r.tables) l (all_names-IsContext r.tables) c)
                    (q, copy_of s) bs (Owned-cons q (copy_of s) r.owns.strings free ne);
              arrays = r.owns.arrays;
              nodes = r.owns.nodes;
              tables = r.owns.tables;
            };
            room = r.room;
            lasts = r.lasts;
            holds = r.holds;
          };
        },
        λ q' t there.
            look-Owned_cons (blocks es) st.base h.strings g q' q (copy_of s) t st.params o there,
      )

  -- The copy of a value of the parameters
  pub Stage-copy :
      (a : Allocator) (v : Bytes) (t : Text) (q : Ptr) (h : Heap)
      (l : List (Ptr × Text) → List (Ptr × Text)) (bs : List (Ptr × Text))
      → IsContext l
      → NeverRefuses a k_tag
      → length (c_string v) + 1 < 2 ^ 32
      → look h.strings q ≡ some t
      → IsText t v
      → Stage (l bs) h
      → (q' : Ptr) × (h' : Heap) × (copy_string a q h ≡ ok q' h')
        × (q' ≢ null)
        × Stage (l ((q', copy_of (c_string v)) ∷ bs)) h'
        × Keeps h h'
  unfolding copy_string
  Stage-copy a v t q h l bs c full short there text st =
      let (q', h', run, ne, st', keeps) =
        Stage-strdup a (c_string v) h l bs c full (rw (c_string_idem v) short) st in
      (q', h', rw (read_string-at h q t v there text) run, ne, st', keeps)

  -- The copy of a name that may be missing
  pub Stage-save :
      (a : Allocator) (value : Option (Option Bytes)) (found : Bool) (q : Ptr) (h₁ h : Heap)
      (l : List (Ptr × Text) → List (Ptr × Text)) (bs : List (Ptr × Text))
      → IsContext l
      → NeverRefuses a k_tag
      → IsShort value
      → Answers h₁ value (found, q)
      → Keeps h₁ h
      → Stage (l bs) h
      → (n : Name) × (h' : Heap) × (save_name a found q h ≡ ok (true, name_at n) h')
        × (text_of n ≡ given value)
        × Stage (l (name_block n bs)) h'
        × Keeps h₁ h'
  unfolding save_name
  Stage-save a none found q h₁ h l bs c full short answers keeps st =
      (none, h, rw answers.0 refl, refl, st, keeps)
  Stage-save a (some none) found q h₁ h l bs c full short answers keeps st =
      (none, h, rw answers.0 refl, refl, st, keeps)
  Stage-save a (some (some v)) found q h₁ h l bs c full short (is, _, (t, there, text)) keeps st =
      let (q', h', run, ne, st', keeps') =
        Stage-copy a v t q h l bs c full short (keeps q t there) text st in
      (
        some (q', copy_of (c_string v)),
        h',
        rw (is, run, ≢→== q' null ne) refl,
        ap some (copy_of-c_string (c_string v) ∙ c_string_idem v),
        st',
        λ r u here. keeps' r u (keeps r u here),
      )

  pub Stage-delete :
      (extra : List (Ptr × Text)) (h : Heap)
      → cp.entries ≡ length es
      → Stage extra h
      → (h' : Heap) × (delete cp h ≡ ok zeroed h') × Registered h₀ extra k ms h' p
  Stage-delete extra h entries st =
      let (h', run, restored) =
        delete-Restored {h₀ = record w₀ { strings = st.base }} kt vt
          (record { strings = st.params; arrays = st.arrays; entries = entries }) in
      let same : lists h' ≡ lists w₀ = kept_lists run (delete-Kept cp h st.same_lists) in
      let r = st.registered in
      (
        h',
        run,
        record {
          tables = r.tables;
          owns = record {
            start = r.owns.start;
            strings = Owned-≡ restored.strings r.owns.strings;
            arrays = λ q. restored.arrays q ∙ r.owns.arrays q;
            nodes =
                subst (λ x. Owned (all_nodes r.tables []) h₀.nodes x) (sym (ap (λ x. x.0) same))
                  r.owns.nodes;
            tables =
                subst (λ x. Owned (tables_to null r.tables []) h₀.tables x)
                  (sym (ap (λ x. x.1) same)) r.owns.tables;
          };
          room = r.room;
          lasts = r.lasts;
          holds = r.holds;
        },
      )
