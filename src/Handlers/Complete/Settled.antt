-- ===== src/Handlers/Complete/Settled.antt =====
-- What ReceiveImageDataComplete leaves allocated.
use mathlib.Core.Path.{subst}
use nxdk_dyndxt.Base.{ℕ, ◌≡◌, ◌≢◌, refl, ap, ◌∙◌, true, false, Option, none, some, List, ◌∷◌, ≢→==}
use nxdk_dyndxt.Pool
use nxdk_dyndxt.Pool.{Ptr, null, Text, Heap, look, free_string}
use nxdk_dyndxt.Response.{def_success, def_error}
use nxdk_dyndxt.Loader.Types
use nxdk_dyndxt.Loader.Types.{DllLoaderOutput, State, invoke_tls_callbacks}
use nxdk_dyndxt.Loader.Run
use nxdk_dyndxt.Loader.Run.{word32, read_word32}
use nxdk_dyndxt.Loader.Parse.{free_block, dll_free_context}
use nxdk_dyndxt.Command.Errors.{codes}
use nxdk_dyndxt.Loader.Load.{dll_load, dll_invoke_tls_callbacks}
use nxdk_dyndxt.Loader.Load.Callbacks.{Return, Invoked, came_back, dll_invoke_tls_callbacks-Invoked}
use nxdk_dyndxt.Loader.Load.Settled.{Settled, HasImage, dll_load-Settled}
use nxdk_dyndxt.Loader.Load.Freed.{cell, free_block_under}
use nxdk_dyndxt.Handlers.{
  ReceiveImageDataContext, World, Run, M, done, undefined, unfinished, pure, and_then, ◌>>◌, lifted,
  on_heap, answered, on_response,
}
use nxdk_dyndxt.Handlers.Complete.{
  Platform, with_state, state_of, input_of, report, report_loaded, free_context, load_failed,
  enter_image, after_callbacks, invoke_callbacks, after_load, load_image,
  receive_image_data_complete,
}

-- What follows an operation of the heap
on_heap-cases :
    (P : Run ℕ → Type 0) (m : Pool.M (Unit {0})) (k : M ℕ) (w : World)
    → P undefined
    → P unfinished
    → ((h : Heap) → m w.heap ≡ Pool.ok tt h → P (k (record w { heap = h })))
    → P ((on_heap m >> k) w)
on_heap-cases P m k w u v went_on = cases (m w.heap) refl
  where
    cases : (r : Pool.Run (Unit {0})) → m w.heap ≡ r → P (and_then (lifted w r) (λ _. k))
    cases (Pool.ok x h) e = went_on h e
    cases Pool.fault e = u
    cases Pool.out_of_fuel e = v

-- What follows a function that writes the response
on_response-cases :
    (P : Run ℕ → Type 0) (m : Text → Option (Unit {0} × Text)) (k : M ℕ) (w : World)
    → P undefined
    → ((t : Text) → P (k (record w { response = t })))
    → P ((on_response m >> k) w)
on_response-cases P m k w u went_on = cases (m w.response)
  where
    cases : (r : Option (Unit {0} × Text)) → P (and_then (answered w r) (λ _. k))
    cases none = u
    cases (some (x, t)) = went_on t

-- The code at an entry point comes back, and frees none of the loader's blocks.
abbrev pub Keeps : (ℕ → M (Unit {0})) → Type 0
Keeps enter =
    (entry : ℕ) (w : World) → (v : World) × (enter entry w ≡ done tt v) × (v.live ≡ w.live)

-- How ReceiveImageDataComplete ends for a file at `base`, of which DLLLoad makes `load`: the file is
-- freed. If DLLLoad fails, the loader owns what it owned before; if it succeeds, the image was
-- entered at the entry point that it has left, and only the image stays.
pub data Completed (enter : ℕ → M (Unit {0})) (w : World) (base : Ptr) (load : Run.Run (Unit {0}))
    : Run ℕ → Type 0 where
  failed :
      (s : State) (v : World)
      → load ≡ Run.failed s
      → v.live ≡ w.live
      → free_string base w.heap ≡ Pool.ok tt v.heap
      → Completed enter w base load (done (def_error 5) v)
  entered :
      (s : State) (u u' v : World)
      → load ≡ Run.returned tt s
      → free_string base w.heap ≡ Pool.ok tt u.heap
      → enter s.output.entrypoint u ≡ done tt u'
      → v.heap ≡ u'.heap
      → s.output.image ≢ null
      → v.live ≡ s.output.image ∷ w.live
      → Completed enter w base load (done (def_success 0) v)
  left_memory : Completed enter w base load undefined
  kept_running : Completed enter w base load unfinished

free_context-false :
    (s : State) (w : World)
    → s.output.image ≡ null
    → s.output.section_headers ≡ null
    → free_context false s.output w ≡ done tt w
unfolding free_context dll_free_context free_block
free_context-false s w no_image no_headers = rw (no_headers, no_image) refl

load_failed-Completed :
    (enter : ℕ → M (Unit {0})) (base : Ptr) (response_len : ℕ) (w : World) (s : State)
    → s.live ≡ w.live
    → s.output.image ≡ null
    → s.output.section_headers ≡ null
    → Completed enter w base
        (Run.failed s)
        (load_failed base s.output response_len (with_state w s))
unfolding load_failed
load_failed-Completed enter base response_len w s live no_image no_headers =
    on_response-cases (Completed enter w base (Run.failed s))
      (report (codes "DLLLoad failed ") s.output response_len)
      (do free_context false s.output; on_heap (free_string base); pure (def_error 5))
      (with_state w s) left_memory
      λ t.
        let v = record (with_state w s) { response = t } in
        rw (free_context-false s v no_image no_headers) (
          on_heap-cases (Completed enter w base (Run.failed s)) (free_string base)
            (pure (def_error 5)) v left_memory kept_running
            λ h e. failed s (record v { heap = h }) refl live e)

free_context-true :
    (o : DllLoaderOutput) (ps : List Ptr) (u : World)
    → o.image ≢ null
    → o.section_headers ≢ null
    → u.live ≡ o.image ∷ o.section_headers ∷ ps
    → free_context true o u ≡ done tt (record u { live = o.image ∷ ps })
unfolding free_context dll_free_context
free_context-true o ps u image headers live =
    let image_cell : (qs : List Ptr) → cell o.image qs ≡ o.image ∷ qs =
      λ qs. rw (≢→== o.image null image) refl in
    let headers_cell : cell o.section_headers ps ≡ o.section_headers ∷ ps =
      rw (≢→== o.section_headers null headers) refl in
    let held : u.live ≡ cell o.image (cell o.section_headers ps) =
      rw (image_cell (cell o.section_headers ps), headers_cell) live in
    rw (free_block_under o.image o.section_headers ps (state_of o u) held, image_cell ps) refl

module _ (platform : Platform) (f : ℕ) (export_table base : Ptr) (w : World)
    (keeps : Keeps platform.enter) where
  enter_image-Completed :
      (s : State) (o : DllLoaderOutput) (u : World)
      → o.image ≡ s.output.image
      → o.entrypoint ≡ s.output.entrypoint
      → o.image ≢ null
      → o.section_headers ≢ null
      → u.live ≡ o.image ∷ o.section_headers ∷ w.live
      → free_string base w.heap ≡ Pool.ok tt u.heap
      → Completed platform.enter w base
          (Run.returned tt s)
          (enter_image platform f export_table o u)
  unfolding enter_image
  enter_image-Completed s o u same entry image headers live freed =
      on_response-cases (Completed platform.enter w base (Run.returned tt s))
        (report_loaded o.image o.entrypoint)
        (do platform.enter o.entrypoint; free_context true o; pure (def_success 0)) u left_memory
        λ t.
          let u₁ = record u { response = t } in
          let (u₂, run, kept) = keeps o.entrypoint u₁ in
          rw (run, free_context-true o w.live u₂ image headers (kept ∙ live))
            (entered s u₁ u₂ (record u₂ { live = o.image ∷ w.live }) refl freed
              (subst (λ n. platform.enter n u₁ ≡ done tt u₂) entry run) refl (rw same at image)
              (ap (λ p. p ∷ w.live) same))

  after_callbacks-Completed :
      (s : State) (u : World) (response_len : ℕ) (r : Run.Run (Unit {0}))
      → Invoked s r
      → s.output.image ≢ null
      → s.output.section_headers ≢ null
      → s.live ≡ s.output.image ∷ s.output.section_headers ∷ w.live
      → free_string base w.heap ≡ Pool.ok tt u.heap
      → Completed platform.enter w base
          (Run.returned tt s)
          (after_callbacks platform f export_table response_len u r)
  unfolding after_callbacks
  after_callbacks-Completed s u response_len r (came_back t live image headers entry) ne ne' e
        freed =
      enter_image-Completed s t.output (with_state u t) image entry (rw image ne) (rw headers ne')
        (rw (image, headers) (live ∙ e)) freed
  after_callbacks-Completed s u response_len r Invoked.faulted ne ne' e freed = left_memory
  after_callbacks-Completed s u response_len r Invoked.cut_off ne ne' e freed = kept_running

  after_load-Completed :
      (response_len : ℕ) (r : Run.Run (Unit {0}))
      → Return platform.callback
      → Settled w.live (HasImage w.live) r
      → Completed platform.enter w base r (after_load platform f export_table base response_len w r)
  unfolding after_load invoke_callbacks
  after_load-Completed response_len r back (Settled.loaded s (image, headers, live) good) =
      on_heap-cases (Completed platform.enter w base (Run.returned tt s)) (free_string base)
        (invoke_callbacks platform f export_table s.output response_len) (with_state w s)
        left_memory kept_running
        λ h e.
          let u = record (with_state w s) { heap = h } in
          after_callbacks-Completed (state_of s.output u) u response_len
            (dll_invoke_tls_callbacks platform.callback f (state_of s.output u))
            (dll_invoke_tls_callbacks-Invoked platform.callback f (state_of s.output u) back) image
            headers live e
  after_load-Completed response_len r back (Settled.refused s live image headers bad) =
      load_failed-Completed platform.enter base response_len w s live image headers
  after_load-Completed response_len r back Settled.faulted = left_memory
  after_load-Completed response_len r back Settled.cut_off = kept_running

-- For TLS callbacks that return, and code at the entry point that returns and frees none of the
-- loader's blocks, ReceiveImageDataComplete on an image that needs relocation ends in one of four
-- ways: DLLLoad on the file fails, and it returns XBOX_E_FAIL, has freed the file, and the loader
-- owns what it owned before; or DLLLoad succeeds, and it has freed the file, entered the image at
-- the entry point that DLLLoad has left, and returns XBOX_S_OK, and of the loader's new blocks only
-- the image stays; or it leaves the memory it may use, or the fuel.
pub receive_image_data_complete-Completed :
    (platform : Platform) (f : ℕ) (export_table : Ptr) (w : World)
    (receive_ctx : ReceiveImageDataContext) (response_len : ℕ)
    → receive_ctx.relocation_needed ≡ true
    → Keeps platform.enter
    → Return platform.callback
    → Completed platform.enter w receive_ctx.image_base
        (dll_load (input_of platform f export_table receive_ctx w) f (state_of Types.zeroed w))
        (receive_image_data_complete platform f export_table receive_ctx response_len w)
unfolding receive_image_data_complete load_image
receive_image_data_complete-Completed platform f export_table w receive_ctx response_len needed
      keeps back =
    let loaded =
      after_load-Completed platform f export_table receive_ctx.image_base w keeps response_len _
        back
        (dll_load-Settled (input_of platform f export_table receive_ctx w) w.live f
          (state_of Types.zeroed w) refl) in
    simp needed loaded
