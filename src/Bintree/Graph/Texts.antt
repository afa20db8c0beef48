-- ===== src/Bintree/Graph/Texts.antt =====
-- librfn/bintree.c: the texts of the formats of `graph_node` and `bintree_graphviz`.
use librfn.Common.{ℕ, List, [], ◌∷◌}

abbrev pub graph_opens : List ℕ
graph_opens = b'g' ∷ b'r' ∷ b'a' ∷ b'p' ∷ b'h' ∷ b' ' ∷ b'{' ∷ b'\n' ∷ []

abbrev pub ordering_out : List ℕ
ordering_out =
    b' ' ∷ b' ' ∷ b' ' ∷ b' ' ∷ b'o' ∷ b'r' ∷ b'd' ∷ b'e' ∷ b'r' ∷ b'i' ∷ b'n' ∷ b'g' ∷ b'=' ∷ b'"'
    ∷ b'o' ∷ b'u' ∷ b't' ∷ b'"' ∷ b';' ∷ b'\n' ∷ []

abbrev pub graph_closes : List ℕ
graph_closes = b'}' ∷ b'\n' ∷ []

abbrev pub indent : List ℕ
indent = b' ' ∷ b' ' ∷ b' ' ∷ b' ' ∷ b'n' ∷ []

abbrev pub joins : List ℕ
joins = b' ' ∷ b'-' ∷ b'-' ∷ b' ' ∷ b'n' ∷ []

abbrev pub label_opens : List ℕ
label_opens = b' ' ∷ b'[' ∷ b' ' ∷ b'l' ∷ b'a' ∷ b'b' ∷ b'e' ∷ b'l' ∷ b'=' ∷ b'"' ∷ []

abbrev pub label_closes : List ℕ
label_closes = b'"' ∷ b' ' ∷ b']' ∷ b';' ∷ b'\n' ∷ []
