-- ===== src/Fibre/Enqueue.antt =====
-- Making a fibre runnable puts it at the end of the run queue and takes it off the timer queue;
-- killing it takes it off both.
use librfn.Common.{
  ◌≡◌, refl, sym, subst, Bool, true, false, ◌||◌, List, [], ◌∷◌, ◌++◌, append-nil, if◌then◌else◌,
  length, ℕ, ◌<◌, Bool-cases, inl, inr,
}
use librfn.LinkedList.{insert, remove}
use librfn.LinkedList.Heap
use librfn.LinkedList.Heap.{Ptr, null, Heap, Returns, ok}
use librfn.LinkedList.Links.{has}
use librfn.LinkedList.Insert.{Inserted, insert_lem}
use librfn.LinkedList.Search.{before, after, before-append-after, Outcome, contains_lem, remove_lem}
use librfn.Fibre.{runq, timerq, enqueue}
use librfn.Fibre.Calls.{dequeue}
use librfn.Fibre.Queues.{
  Fibres, Fibres-swap, Queued, Queued-swap, Queued-IsFree, Queued-insert, Queued-remove, gone,
  without, without-split, without-absent,
}

-- A run that returns goes on from what it left.
pub and_then-Returns :
    {A B : Type 0} (P : A → Heap → Type 0) (Q : B → Heap → Type 0) (r : Heap.Run A)
    (k : A → Heap.Cmd B)
    → Returns P r
    → ((a : A) (g : Heap) → P a g → Returns Q (k a g))
    → Returns Q (Heap.and_then r k)
and_then-Returns P Q (Heap.ok a g) k p next = next a g p
and_then-Returns P Q Heap.fault k p next = absurd p
and_then-Returns P Q Heap.out_of_fuel k p next = absurd p

pub Returns-map :
    {A : Type 0} (P Q : A → Heap → Type 0) (r : Heap.Run A)
    → ((a : A) (g : Heap) → P a g → Q a g)
    → Returns P r
    → Returns Q r
Returns-map P Q (Heap.ok a g) f p = f a g p
Returns-map P Q Heap.fault f p = absurd p
Returns-map P Q Heap.out_of_fuel f p = absurd p

module _ {fibres : Ptr → Bool} {a b : Ptr} (w : Fibres fibres a b) where
  -- A fibre on neither list is put at the end of the first.
  pub insert_first :
      {h : Heap} (f : Ptr) (xs ys : List Ptr)
      → Queued fibres a b h xs ys
      → fibres f ≡ true
      → has f xs ≡ false
      → has f ys ≡ false
      → Returns (λ _ g. Queued fibres a b g (xs ++ (f ∷ [])) ys) (insert a f h)
  insert_first {h} f xs ys q is_fibre out off =
      Returns-map (Inserted h a f xs []) (λ _ g. Queued fibres a b g (xs ++ (f ∷ [])) ys)
        (insert a f h) (λ _ g i. Queued-insert w f xs [] (rw append-nil q) is_fibre off i)
        (insert_lem q.first_list (Queued-IsFree w q f is_fibre out off))

  Outcome-Queued :
      {h : Heap} (f : Ptr) (xs ys : List Ptr) (b' : Bool) (g : Heap)
      → Queued fibres a b h xs ys
      → has f xs ≡ b'
      → Outcome h a f xs b' g
      → Queued fibres a b g (without f xs) ys × (has f (without f xs) ≡ false)
  Outcome-Queued {h} f xs ys true g q found out =
      let split = before-append-after f xs found in
      let q' : Queued fibres a b h (before f xs ++ (f ∷ after f xs)) ys =
        subst (λ zs. Queued fibres a b h zs ys) split q in
      subst (λ zs. Queued fibres a b g zs ys × (has f zs ≡ false)) (without-split f xs found)
        (
          Queued-remove w f (before f xs) (after f xs) q' out,
          (gone w f (before f xs) (after f xs) q' out.1).0,
        )
  Outcome-Queued {h} f xs ys false g q missing same =
      subst (λ zs. Queued fibres a b g zs ys × (has f zs ≡ false))
        (sym (without-absent f xs missing))
        (subst (λ g. Queued fibres a b g xs ys) (sym same) q, missing)

  -- A fibre is taken off the first list if it is there.
  pub remove_first :
      {h : Heap} (fuel : ℕ) (f : Ptr) (xs ys : List Ptr)
      → Queued fibres a b h xs ys
      → length xs < fuel
      → Returns
          (λ found g.
            (found ≡ has f xs)
            × Queued fibres a b g (without f xs) ys
            × (has f (without f xs) ≡ false))
          (remove fuel a f h)
  remove_first {h} fuel f xs ys q enough =
      Returns-map (λ found g. (found ≡ has f xs) × Outcome h a f xs (has f xs) g)
        (λ found g.
          (found ≡ has f xs)
          × Queued fibres a b g (without f xs) ys
          × (has f (without f xs) ≡ false))
        (remove fuel a f h)
        (λ found g (same, out).
          let (q', off) = Outcome-Queued f xs ys (has f xs) g q refl out in (same, q', off))
        (remove_lem f fuel q.first_list enough)

-- The run queue after a fibre was made runnable. Its place is kept if it has one.
unfoldable pub made_ready : Ptr → List Ptr → List Ptr
made_ready f xs = if has f xs then xs else xs ++ (f ∷ [])

module _ {fibres : Ptr → Bool} (w : Fibres fibres runq timerq) {h : Heap} {ready timed : List Ptr}
    (q : Queued fibres runq timerq h ready timed) (f : Ptr) (fuel : ℕ)
    (enough : length ready < fuel) (enough' : length timed < fuel) where
  pub enqueue_lem :
      fibres f ≡ true
      → Returns
          (λ _ g. Queued fibres runq timerq g (made_ready f ready) (without f timed))
          (enqueue fuel f h)
  unfolding enqueue made_ready
  enqueue_lem is_fibre = elim (Bool-cases (has f ready)) [
    | inl found ↦
        rw (contains_lem f fuel q.first_list enough, found)
          (rw (without-absent f timed (q.apart f found)) q)
    | inr missing ↦
        rw (contains_lem f fuel q.first_list enough, missing)
          (and_then-Returns
            (λ found g.
              (found ≡ has f timed)
              × Queued fibres timerq runq g (without f timed) ready
              × (has f (without f timed) ≡ false))
            (λ _ g. Queued fibres runq timerq g (ready ++ (f ∷ [])) (without f timed))
            (remove fuel timerq f h) (λ _. insert runq f)
            (remove_first (Fibres-swap w) fuel f timed ready (Queued-swap q) enough')
            (λ found g (same, q', off).
              insert_first w f ready (without f timed) (Queued-swap q') is_fibre missing off))
  ]

  pub dequeue_lem :
      Returns
        (λ found g.
          (found ≡ (has f ready || has f timed))
          × Queued fibres runq timerq g (without f ready) (without f timed))
        (dequeue fuel f h)
  unfolding dequeue
  dequeue_lem =
      and_then-Returns
        (λ found g.
          (found ≡ has f ready)
          × Queued fibres runq timerq g (without f ready) timed
          × (has f (without f ready) ≡ false))
        (λ found g.
          (found ≡ (has f ready || has f timed))
          × Queued fibres runq timerq g (without f ready) (without f timed))
        (remove fuel runq f h)
        (λ res. Heap.◌>>=◌ (remove fuel timerq f) λ res'. Heap.pure (res || res'))
        (remove_first w fuel f ready timed q enough)
        (λ res g (same, q', out).
          and_then-Returns
            (λ found g.
              (found ≡ has f timed)
              × Queued fibres timerq runq g (without f timed) (without f ready)
              × (has f (without f timed) ≡ false))
            (λ found g.
              (found ≡ (has f ready || has f timed))
              × Queued fibres runq timerq g (without f ready) (without f timed))
            (remove fuel timerq f g) (λ res'. Heap.pure (res || res'))
            (remove_first (Fibres-swap w) fuel f timed (without f ready) (Queued-swap q') enough')
            (λ res' g' (same', q'', off). (rw (same, same') refl, Queued-swap q'')))
