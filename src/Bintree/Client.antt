-- ===== src/Bintree/Client.antt =====
-- A loop over an iterator that changes the left word of each node it is given, and what it leaves.
use mathlib.Core.Path.{fun_ext}
use librfn.Common.{
  ℕ, zero, suc, ◌≡◌, ◌≢◌, refl, sym, ap, ◌∙◌, Bool, true, false, ◌||◌, List, [], ◌∷◌, ◌++◌,
  append_assoc, arith, ◌==◌, if◌then◌else◌, ne→==,
}
use librfn.Bintree.Memory.{
  Ptr, null, Nodes, Run, fault, out_of_fuel, ok, Cmd, pure, and_then, ◌>>=◌, ◌>>◌, load_left,
  store_left, update,
}
use librfn.Bintree.Iterate.{Iterator}
use librfn.Bintree.Shape.{Tree, nil, node, in_tree, Ends, in_order}
use librfn.Bintree.Spine.{Ends-frame}

-- The left words once those of `xs` have been changed by `g`, in this order.
abbrev pub marks : (Ptr → Ptr) → (Ptr → Ptr) → List Ptr → Ptr → Ptr
marks g f [] = f
marks g f (x ∷ xs) = marks g (update f x (g (f x))) xs

pub marks-append :
    (g f : Ptr → Ptr) (xs ys : List Ptr) → marks g f (xs ++ ys) ≡ marks g (marks g f xs) ys
marks-append g f [] ys = refl
marks-append g f (x ∷ xs) ys = marks-append g (update f x (g (f x))) xs ys

-- Changing nothing leaves the words as they are.
pub marks_same : (f : Ptr → Ptr) (xs : List Ptr) → marks (λ l. l) f xs ≡ f
marks_same f [] = refl
marks_same f (x ∷ xs) =
    ap (λ h. marks (λ l. l) h xs) (fun_ext (λ q. ground (arith, λ (e : q ≡ x). ap f e)))
    ∙ marks_same f xs

abbrev pub among : Ptr → List Ptr → Bool
among p [] = false
among p (x ∷ xs) = (p == x) || among p xs

among-append : (p : Ptr) (xs ys : List Ptr) → among p (xs ++ ys) ≡ (among p xs || among p ys)
among-append p [] ys = refl
among-append p (x ∷ xs) ys = ground (arith, among-append p xs ys)

pub marks_outside :
    (g f : Ptr → Ptr) (xs : List Ptr) (p : Ptr) → among p xs ≡ false → marks g f xs p ≡ f p
marks_outside g f [] p h = refl
marks_outside g f (x ∷ xs) p h =
    marks_outside g (update f x (g (f x))) xs p (ground (arith, h)) ∙ ground (arith, h)

pub among-in_order : (p : Ptr) (t : Tree) → among p (in_order t) ≡ in_tree p t
among-in_order p nil = refl
among-in_order p (node l a r) =
    among-append p (in_order l) (a ∷ in_order r)
    ∙ ground (arith, among-in_order p l, among-in_order p r)

abbrev pub marked : (Ptr → Ptr) → Nodes → List Ptr → Nodes
marked g m xs = record m { left = marks g m.left xs }

abbrev pub prepended : List Ptr → Run (List Ptr × Iterator) → Run (List Ptr × Iterator)
prepended xs r = and_then r (λ (ns, iter). pure (xs ++ ns, iter))

pub prepended-append :
    (xs ys : List Ptr) (r : Run (List Ptr × Iterator))
    → prepended xs (prepended ys r) ≡ prepended (xs ++ ys) r
prepended-append xs ys fault = refl
prepended-append xs ys out_of_fuel = refl
prepended-append xs ys (ok (ns, iter) m) = ap (λ zs. ok (zs, iter) m) (sym (append_assoc xs ys ns))

pub prepended_nothing : (r : Run (List Ptr × Iterator)) → prepended [] r ≡ r
prepended_nothing fault = refl
prepended_nothing out_of_fuel = refl
prepended_nothing (ok (ns, iter) m) = refl

-- Marks elsewhere leave a tree what it is.
pub Ends-marked :
    (g : Ptr → Ptr) (xs : List Ptr) (m : Nodes) (p : Ptr) (t : Tree) (e : Ptr)
    → ((q : Ptr) → in_tree q t ≡ true → among q xs ≡ false)
    → Ends m p t e
    → Ends (marked g m xs) p t e
Ends-marked g xs m p t e apart is =
    Ends-frame m (marked g m xs) p t e (λ q i. (marks_outside g m.left xs q (apart q i), refl)) is

module _ (step : Iterator → Cmd (Ptr × Iterator)) (g : Ptr → Ptr) where
  -- The rest of the loop, behind a call that gave what `result` holds.
  unfoldable pub client : ℕ → Ptr × Iterator → Cmd (List Ptr × Iterator)
  client zero (n, iter) = λ m. out_of_fuel
  client (suc rounds) (n, iter) =
      let rest = load_left n >>= λ l.
      store_left n (g l)
      >> (step iter >>= λ next. client rounds next >>= λ (ns, iter). pure (n ∷ ns, iter)) in
      if n == null then pure ([], iter) else rest

  -- The loop from a call that is under way.
  abbrev pub going_on : ℕ → Run (Ptr × Iterator) → Run (List Ptr × Iterator)
  going_on rounds r = and_then r (client rounds)

  pub client-visit :
      (rounds : ℕ) (a : Ptr) (iter : Iterator) (m : Nodes)
      → a ≢ null
      → going_on (suc rounds) (ok (a, iter) m)
        ≡ prepended (a ∷ []) (going_on rounds (step iter (marked g m (a ∷ []))))
  unfolding client
  client-visit rounds a iter m real =
      let h = ne→== a null real in rw (h, h, h) (joined (step iter (marked g m (a ∷ []))))
    where
      joined :
          (r : Run (Ptr × Iterator))
          → and_then r (λ next. client rounds next >>= λ (ns, iter). pure (a ∷ ns, iter))
            ≡ prepended (a ∷ []) (and_then r (client rounds))
      joined fault = refl
      joined out_of_fuel = refl
      joined (ok next m') = refl
