-- ===== src/Bintree/Graph.antt =====
-- librfn/bintree.c: a tree drawn as text and as a graph. What a function prints is appended to a list of
-- characters. The labeller is the client's; a label is the sequence of its characters before the NUL.
mod Texts
pub use Texts.*
use librfn.Common.{
  ℕ, zero, suc, ◌+◌, ◌-◌, ◌/◌, ◌%◌, Bool, true, false, ◌||◌, Option, none, some, List, [], ◌∷◌,
  ◌++◌, ltb, length, replicate, ◌==◌, if◌then◌else◌,
}
use librfn.Bintree.Memory.{Ptr, null, Nodes}
use librfn.Bintree.Traverse.{then_visit, bintree_traverse_pre_order}

-- `struct visualize`, and what has been printed to `f`.
pub record Visualize : Type 0 where
  pub f : List ℕ
  pub labeller : Ptr → List ℕ

abbrev pub fprintf : Visualize → List ℕ → Visualize
fprintf v printed = record v { f = v.f ++ printed }

unfoldable pub visualize_node : Visualize → Ptr → Ptr → ℕ → Visualize
visualize_node ctx node parent depth =
    fprintf (fprintf ctx (replicate depth b'\t')) (ctx.labeller node ++ (b'\n' ∷ []))

unfoldable pub bintree_visualize : Nodes → ℕ → Ptr → List ℕ → (Ptr → List ℕ) → Option Visualize
unfolding visualize_node bintree_traverse_pre_order
bintree_visualize m fuel tree f labeller =
    bintree_traverse_pre_order m visualize_node fuel tree (record { f = f; labeller = labeller })

abbrev pub is_special : ℕ → Bool
is_special c = (c == b'\\') || (c == b'"')

-- The first loop: the length that the escaped label takes.
unfoldable pub escaped_length : List ℕ → ℕ
escaped_length [] = 0
escaped_length (c ∷ s) = (if is_special c then 2 else 1) + escaped_length s

-- The second loop: what it writes before the NUL.
unfoldable pub escaped : List ℕ → List ℕ
escaped [] = []
escaped (c ∷ s) = if is_special c then b'\\' ∷ c ∷ escaped s else c ∷ escaped s

unfoldable pub escape : List ℕ → List ℕ
unfolding escaped_length escaped
escape s = if escaped_length s == length s then s else escaped s

-- `%lx` of an address.
abbrev pub digit : ℕ → ℕ
digit d = if ltb d 10 then b'0' + d else b'a' + (d - 10)

unfoldable pub print_hex : ℕ → ℕ → List ℕ
print_hex zero n = digit (n % 16) ∷ []
print_hex (suc k) n =
    if ltb n 16 then digit n ∷ [] else print_hex k (n / 16) ++ (digit (n % 16) ∷ [])

abbrev pub xptr : Ptr → List ℕ
xptr p = print_hex 15 p

abbrev pub node_line : Ptr → List ℕ → List ℕ
node_line node label = indent ++ (xptr node ++ (label_opens ++ (label ++ label_closes)))

abbrev pub edge_line : Ptr → Ptr → List ℕ → List ℕ
edge_line node child side =
    indent ++ (xptr node ++ (joins ++ (xptr child ++ (label_opens ++ (side ++ label_closes)))))

unfoldable pub graph_node : Nodes → Visualize → Ptr → Ptr → ℕ → Visualize
unfolding escape
graph_node m ctx node parent depth =
    if node == null
    then ctx
    else let ctx = fprintf ctx (node_line node (escape (ctx.labeller node))) in
      let ctx =
        if m.left node == null
        then ctx
        else fprintf ctx (edge_line node (m.left node) (b'l' ∷ [])) in
      if m.right node == null then ctx else fprintf ctx (edge_line node (m.right node) (b'r' ∷ []))

unfoldable pub bintree_graphviz : Nodes → ℕ → Ptr → List ℕ → (Ptr → List ℕ) → Option Visualize
unfolding graph_node bintree_traverse_pre_order
bintree_graphviz m fuel tree f labeller =
    let v = fprintf (fprintf (record { f = f; labeller = labeller }) graph_opens) ordering_out in
    then_visit (bintree_traverse_pre_order m (graph_node m) fuel tree v)
      λ v. some (fprintf v graph_closes)
