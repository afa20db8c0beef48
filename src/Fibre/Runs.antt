-- ===== src/Fibre/Runs.antt =====
-- What a run of the kernel's calls returns, and what of the kernel it leaves alone.
use librfn.Common.{◌≡◌, refl, sym, ap, ◌∙◌, Bool, true, false, if◌then◌else◌}
use librfn.LinkedList.Heap
use librfn.LinkedList.Heap.{Heap}
use librfn.Fibre.{Kernel, Run, done, fault, out_of_fuel, Cmd, after, with_links, lists}

-- A run that returns, with a result and a kernel of which `P` holds.
abbrev pub Returns : {A : Type 0} → (A → Kernel → Type 0) → Run A → Type 0
Returns P (done a k) = P a k
Returns P fault = ⊥
Returns P out_of_fuel = ⊥

pub then_runs :
    {A B : Type 0} (P : A → Kernel → Type 0) (Q : B → Kernel → Type 0) (r : Run A) (f : A → Cmd B)
    → Returns P r
    → ((a : A) (k : Kernel) → P a k → Returns Q (f a k))
    → Returns Q (after r f)
then_runs P Q (done a k) f p next = next a k p
then_runs P Q fault f p next = absurd p
then_runs P Q out_of_fuel f p next = absurd p

pub runs_map :
    {A : Type 0} (P Q : A → Kernel → Type 0) (r : Run A)
    → ((a : A) (k : Kernel) → P a k → Q a k)
    → Returns P r
    → Returns Q r
runs_map P Q (done a k) f p = f a k p
runs_map P Q fault f p = absurd p
runs_map P Q out_of_fuel f p = absurd p

pub if_Returns :
    {A : Type 0} (P : A → Kernel → Type 0) (b : Bool) (x y : Run A)
    → (b ≡ true → Returns P x)
    → (b ≡ false → Returns P y)
    → Returns P (if b then x else y)
if_Returns P true x y then_case else_case = then_case refl
if_Returns P false x y then_case else_case = else_case refl

-- A call of list.c that returns changes the links only.
pub lists-Returns :
    {A : Type 0} (P : A → Heap → Type 0) (c : Heap.Cmd A) (k : Kernel)
    → Heap.Returns P (c k.links)
    → Returns (λ a k'. (k' ≡ record k { links = k'.links }) × P a k'.links) (lists c k)
lists-Returns {A} P c k p = lift (c k.links) p
  where
    lift :
        (r : Heap.Run A)
        → Heap.Returns P r
        → Returns (λ a k'. (k' ≡ record k { links = k'.links }) × P a k'.links) (with_links k r)
    lift (Heap.ok a h) p = (refl, p)
    lift Heap.fault p = absurd p
    lift Heap.out_of_fuel p = absurd p

-- Nothing but the queues has changed.
abbrev pub OnlyQueues : Kernel → Kernel → Type 0
OnlyQueues k k' = k' ≡ record k { links = k'.links; atomic_runq = k'.atomic_runq }

pub OnlyQueues-trans : (k k' k'' : Kernel) → OnlyQueues k k' → OnlyQueues k' k'' → OnlyQueues k k''
OnlyQueues-trans k k' k'' e e' =
    e' ∙ ap (λ (z : Kernel). record z { links = k''.links; atomic_runq = k''.atomic_runq }) e

pub OnlyQueues-links : (k k' : Kernel) → k' ≡ record k { links = k'.links } → OnlyQueues k k'
OnlyQueues-links k k' e =
    e
    ∙ ap (λ mq. record k { links = k'.links; atomic_runq = mq })
        (ap (λ (z : Kernel). z.atomic_runq) (sym e))
