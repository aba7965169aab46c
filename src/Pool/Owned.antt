-- ===== src/Pool/Owned.antt =====
-- Which blocks of a region a component owns: a separation law for one type of block. A list of
-- addresses with contents says all that differs from the region that the component started from.
use mathlib.Core.Bool.{or_assoc}
use nxdk_dyndxt.Base.{
  ◌≡◌, ◌≢◌, refl, Bool, true, false, ◌||◌, none, some, List, [], ◌∷◌, ◌++◌, arith, ◌==◌,
}
use nxdk_dyndxt.Pool.{Ptr, null, Region, look, update}

module _ {B : Type 0} where
  abbrev pub has : Ptr → List (Ptr × B) → Bool
  has p [] = false
  has p ((q, _) ∷ bs) = (q == p) || has p bs

  -- The blocks stand in the region, at addresses that are not null and differ pairwise.
  abbrev pub Held : List (Ptr × B) → Region B → Type 0
  Held [] f = Unit
  Held ((p, b) ∷ bs) f = (look f p ≡ some b) × (p ≢ null) × (has p bs ≡ false) × Held bs f

  -- `after` is `before` and the blocks `bs`, all of them new.
  pub record Owned (bs : List (Ptr × B)) (before after : Region B) : Type 0 where
    pub held : Held bs after
    pub new : (p : Ptr) → has p bs ≡ true → look before p ≡ none
    pub same : (p : Ptr) → has p bs ≡ false → look after p ≡ look before p

  pub has-append : (p : Ptr) (xs ys : List (Ptr × B)) → has p (xs ++ ys) ≡ (has p xs || has p ys)
  has-append p [] ys = refl
  has-append p (x ∷ xs) ys = rw (has-append p xs ys, or_assoc)

  Held-update :
      (bs : List (Ptr × B)) (f : Region B) (p : Ptr) (b : _)
      → has p bs ≡ false
      → Held bs f
      → Held bs (update f p b)
  Held-update [] f p b out h = tt
  Held-update (x ∷ bs) f p b out h =
      (ground arith, h.1, h.2, Held-update bs _ p b (ground arith) h.3)

  has-Held :
      (bs : List (Ptr × B)) (f : Region B) (p : Ptr)
      → Held bs f
      → look f p ≡ none
      → has p bs ≡ false
  has-Held [] f p h e = refl
  has-Held (x ∷ bs) f p h e = ground (arith, has-Held bs _ p h.3)

  -- Nothing owned: the regions are the same.
  pub Owned-nil : {f g : Region B} → ((p : Ptr) → look g p ≡ look f p) → Owned [] f g
  Owned-nil same = record { held = tt; new = λ p h. cc; same = λ p h. same p }

  -- Allocation.
  pub Owned-cons :
      {bs : List (Ptr × B)} {f g : Region B} (p : Ptr) (b : B)
      → Owned bs f g
      → look g p ≡ none
      → p ≢ null
      → Owned ((p, b) ∷ bs) f (update g p (some b))
  Owned-cons {bs} p b o e ne =
      let out : has p bs ≡ false = has-Held bs _ p o.held e in
      record {
        held = (ground arith, ne, out, Held-update bs _ p (some b) out o.held);
        new = λ q i. ground (arith, o.new q, o.same p);
        same = λ q i. ground (arith, o.same q);
      }

  -- A write to a block.
  pub Owned-write :
      {bs : List (Ptr × B)} {f g : Region B} {p : Ptr} {b : B} (c : B)
      → Owned ((p, b) ∷ bs) f g
      → Owned ((p, c) ∷ bs) f (update g p (some c))
  Owned-write {bs} {p} c o = record {
    held = (ground arith, o.held.1, o.held.2, Held-update bs _ p (some c) o.held.2 o.held.3);
    new = λ q i. o.new q i;
    same = λ q i. ground (arith, o.same q);
  }

  -- A free.
  pub Owned-free :
      {bs : List (Ptr × B)} {f g : Region B} {p : Ptr} {b : B}
      → Owned ((p, b) ∷ bs) f g
      → Owned bs f (update g p none)
  Owned-free {bs} {p} o = record {
    held = Held-update bs _ p none o.held.2 o.held.3;
    new = λ q i. ground (arith, o.new q);
    same = λ q i. ground (arith, o.same q, o.new p);
  }

  Held-append :
      (xs ys : List (Ptr × B)) (f : Region B) (p : Ptr) (b : B)
      → Held (xs ++ ys) f
      → look f p ≡ some b
      → p ≢ null
      → has p (xs ++ ys) ≡ false
      → Held (xs ++ (p, b) ∷ ys) f
  Held-append [] ys f p b h e ne out = (e, ne, out, h)
  Held-append ((q, c) ∷ xs) ys f p b h e ne out = (
    h.0,
    h.1,
    ground (arith, has-append q xs ys, has-append q xs ((p, b) ∷ ys)),
    Held-append xs ys _ p b h.3 e ne (ground arith),
  )

  -- A block may be listed at any place.
  pub Owned-insert :
      (xs ys : List (Ptr × B)) {f g : Region B} (p : Ptr) (b : B)
      → Owned ((p, b) ∷ (xs ++ ys)) f g
      → Owned (xs ++ (p, b) ∷ ys) f g
  Owned-insert xs ys p b o = record {
    held = Held-append xs ys _ p b o.held.3 o.held.0 o.held.1 o.held.2;
    new = λ q i. o.new q (ground (arith, has-append q xs ys, has-append q xs ((p, b) ∷ ys)));
    same = λ q i. o.same q (ground (arith, has-append q xs ys, has-append q xs ((p, b) ∷ ys)));
  }

  Held-delete :
      (xs ys : List (Ptr × B)) (f : Region B) (p : Ptr) (b : B)
      → Held (xs ++ (p, b) ∷ ys) f
      → Held ((p, b) ∷ (xs ++ ys)) f
  Held-delete [] ys f p b h = h
  Held-delete ((q, c) ∷ xs) ys f p b h =
      let r = Held-delete xs ys _ p b h.3 in
      (
        r.0,
        r.1,
        ground (arith, has-append q xs ys, has-append q xs ((p, b) ∷ ys)),
        (h.0, h.1, ground (arith, has-append q xs ys, has-append q xs ((p, b) ∷ ys)), r.3),
      )

  pub Owned-extract :
      (xs ys : List (Ptr × B)) {f g : Region B} (p : Ptr) (b : B)
      → Owned (xs ++ (p, b) ∷ ys) f g
      → Owned ((p, b) ∷ (xs ++ ys)) f g
  Owned-extract xs ys p b o = record {
    held = Held-delete xs ys _ p b o.held;
    new = λ q i. o.new q (ground (arith, has-append q xs ys, has-append q xs ((p, b) ∷ ys)));
    same = λ q i. o.same q (ground (arith, has-append q xs ys, has-append q xs ((p, b) ∷ ys)));
  }
