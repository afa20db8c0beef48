-- ===== src/Bintree/Drawing.antt =====
-- What a drawn tree says: the labels can be read back, and the graph has the edges of the tree.
use librfn.Common.{
  ℕ, ◌+◌, ◌≡◌, ◌≢◌, ◌<◌, ◌≤◌, refl, sym, ap, ◌∙◌, Bool, true, false, Option, none, some, List, [],
  ◌∷◌, ◌++◌, append_assoc, append-nil, arith, length, ◌==◌, if◌then◌else◌, ne→==, ==_iff,
  Bool-cases, inl, inr,
}
use librfn.Bintree.Memory.{Ptr, null, Nodes}
use librfn.Bintree.Shape.{Tree, nil, node, size, HasTree}
use librfn.Bintree.Visits.{pre_order_visits, visited, visited-append, traversals_lem}
use librfn.Bintree.Graph.{
  Visualize, fprintf, is_special, escaped_length, escaped, escape, node_line, edge_line, graph_node,
  bintree_graphviz, graph_opens, ordering_out, graph_closes,
}

abbrev add : ℕ → Option (List ℕ × List ℕ) → Option (List ℕ × List ℕ)
add c none = none
add c (some (s, rest)) = some (c ∷ s, rest)

-- A quoted string as the graph's reader takes it, behind the opening quote or behind a backslash: the
-- string, and what follows the closing quote.
unfoldable pub read_quoted : Bool → List ℕ → Option (List ℕ × List ℕ)
read_quoted quoting [] = none
read_quoted true (c ∷ s) = add c (read_quoted false s)
read_quoted false (c ∷ s) =
    let backslash = read_quoted true s in
    let plain = add c (read_quoted false s) in
    if c == b'"' then some ([], s) else if c == b'\\' then backslash else plain

read_quoted-escaped :
    (s rest : List ℕ) → read_quoted false (escaped s ++ (b'"' ∷ rest)) ≡ some (s, rest)
unfolding read_quoted escaped
read_quoted-escaped [] rest = refl
read_quoted-escaped (c ∷ s) rest = elim (Bool-cases (is_special c)) [
  | inl h ↦ rw h (ap (add c) (read_quoted-escaped s rest))
  | inr h ↦
      let quote : (c == b'"') ≡ false = ground (arith, h) in
      let backslash : (c == b'\\') ≡ false = ground (arith, h) in
      rw (h, quote, backslash) (ap (add c) (read_quoted-escaped s rest))
]

length-escaped : (s : List ℕ) → length (escaped s) ≡ escaped_length s
unfolding escaped escaped_length
length-escaped [] = refl
length-escaped (c ∷ s) = elim (Bool-cases (is_special c)) [
  | inl h ↦ rw h (omega (arith, length-escaped s))
  | inr h ↦ rw h (omega (arith, length-escaped s))
]

length_escaped_le : (s : List ℕ) → length s ≤ escaped_length s
unfolding escaped_length
length_escaped_le [] = omega arith
length_escaped_le (c ∷ s) = elim (Bool-cases (is_special c)) [
  | inl h ↦ rw h (omega (arith, length_escaped_le s))
  | inr h ↦ rw h (omega (arith, length_escaped_le s))
]

-- A label of the same length had nothing to escape.
escaped_same : (s : List ℕ) → escaped_length s ≡ length s → escaped s ≡ s
unfolding escaped escaped_length
escaped_same [] h = refl
escaped_same (c ∷ s) h = elim (Bool-cases (is_special c)) [
  | inl special ↦ absurd (ground (arith, h, special, length_escaped_le s))
  | inr plain ↦ rw plain (ap (λ z. c ∷ z) (escaped_same s (ground (arith, h, plain))))
]

-- `escape` puts nothing but the escaped label into memory that is just long enough for it and its NUL,
-- and a reader of the quoted label gets back the label that the client gave, whatever it holds.
pub escape_lem :
    (s rest : List ℕ)
    → (read_quoted false (escape s ++ (b'"' ∷ rest)) ≡ some (s, rest))
      × (length (escape s) + 1 ≡ escaped_length s + 1)
unfolding escape
escape_lem s rest =
    let copied : escape s ≡ escaped s = elim (Bool-cases (escaped_length s == length s)) [
      | inl same ↦ rw same (sym (escaped_same s ((==_iff (escaped_length s) (length s)).0 same)))
      | inr other ↦ rw other refl
    ] in
    (
      ap (λ z. read_quoted false (z ++ (b'"' ∷ rest))) copied ∙ read_quoted-escaped s rest,
      ap (λ z. length z + 1) copied ∙ ap (λ n. n + 1) (length-escaped s),
    )

joined :
    (a b c d e f : List ℕ) → ((((a ++ b) ++ c) ++ d) ++ e) ++ f ≡ a ++ (b ++ (c ++ (d ++ (e ++ f))))
joined a b c d e f = simp append_assoc refl

module _ (labeller : Ptr → List ℕ) where
  abbrev pub edge : Ptr → Tree → List ℕ → List ℕ
  edge a nil side = []
  edge a (node l b r) side = edge_line a b side

  -- The lines for a tree, that of each node with those of its edges behind it.
  abbrev pub graph_of : Tree → List ℕ
  graph_of nil = []
  graph_of (node l a r) =
      node_line a (escape (labeller a))
      ++ (edge a l (b'l' ∷ []) ++ (edge a r (b'r' ∷ []) ++ (graph_of l ++ graph_of r)))

  abbrev pub printing : List ℕ → Visualize
  printing out = record { f = out; labeller = labeller }

  module _ (m : Nodes) where
    -- The test of the link finds out whether there is a subtree.
    with_edge :
        (out : List ℕ) (a : Ptr) (t : Tree) (p : Ptr) (side : List ℕ)
        → HasTree m p t
        → (if p == null then printing out else printing (out ++ edge_line a p side))
          ≡ printing (out ++ edge a t side)
    with_edge out a nil p side is = rw is (ap printing (sym (append-nil out)))
    with_edge out a (node l b r) p side (at, real, left, right) = rw (at, ne→== b null real) refl

    node_drawn :
        (out : List ℕ) (l : Tree) (a : Ptr) (r : Tree) (parent : Ptr) (d : ℕ)
        → a ≢ null
        → HasTree m (m.left a) l
        → HasTree m (m.right a) r
        → graph_node m (printing out) a parent d
          ≡ printing (
              ((out ++ node_line a (escape (labeller a))) ++ edge a l (b'l' ∷ []))
              ++ edge a r (b'r' ∷ []))
    unfolding graph_node
    node_drawn out l a r parent d real left right =
        let out' = out ++ node_line a (escape (labeller a)) in
        let then_right : Visualize → Visualize =
          λ v. if m.right a == null then v else fprintf v (edge_line a (m.right a) (b'r' ∷ [])) in
        rw (ne→== a null real) (
          ap then_right (with_edge out' a l (m.left a) (b'l' ∷ []) left)
          ∙ with_edge (out' ++ edge a l (b'l' ∷ [])) a r (m.right a) (b'r' ∷ []) right)

    graph-visited :
        (t : Tree) (p parent : Ptr) (d : ℕ) (out : List ℕ)
        → HasTree m p t
        → visited (graph_node m) (printing out) (pre_order_visits t parent d)
          ≡ printing (out ++ graph_of t)
    unfolding graph_node
    graph-visited nil p parent d out is = ap printing (sym (append-nil out))
    graph-visited (node l a r) p parent d out (at, real, left, right) =
        let nl = node_line a (escape (labeller a)) in
        let el = edge a l (b'l' ∷ []) in
        let er = edge a r (b'r' ∷ []) in
        let out' = ((out ++ nl) ++ el) ++ er in
        let vl = pre_order_visits l a (d + 1) in
        let vr = pre_order_visits r a (d + 1) in
        ap (λ v. visited (graph_node m) v (vl ++ vr))
          (node_drawn out l a r parent d real left right)
        ∙ visited-append (graph_node m) (printing out') vl vr
        ∙ ap (λ v. visited (graph_node m) v vr) (graph-visited l (m.left a) a (d + 1) out' left)
        ∙ graph-visited r (m.right a) a (d + 1) (out' ++ graph_of l) right
        ∙ ap printing (joined out nl el er (graph_of l) (graph_of r))

    -- With a tree in memory and more fuel than it has nodes, `bintree_graphviz` prints a graph that has a line for each node of the tree, in pre-order, with the
    -- escaped label, and an edge to each of its children that is there, `l` or `r`, and no other edge.
    pub bintree_graphviz_lem :
        (fuel : ℕ) (t : Tree) (p : Ptr) (out : List ℕ)
        → size t < fuel
        → HasTree m p t
        → bintree_graphviz m fuel p out labeller
          ≡ some (printing ((((out ++ graph_opens) ++ ordering_out) ++ graph_of t) ++ graph_closes))
    unfolding bintree_graphviz
    bintree_graphviz_lem fuel t p out h is =
        let out' = (out ++ graph_opens) ++ ordering_out in
        let drawn = (traversals_lem (graph_node m) m fuel t p (printing out') h is).1 in
        rw drawn (ap (λ v. some (fprintf v graph_closes)) (graph-visited t p null 0 out' is))
