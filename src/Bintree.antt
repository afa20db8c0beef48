-- ===== src/Bintree.antt =====
-- librfn/bintree.c and include/librfn/bintree.h: binary trees of the clients' nodes, traversed by recursion, and
-- iterated without a stack: the iterators thread the tree while they walk. Loops and recursion run on fuel.
pub mod Memory
pub mod Traverse
pub mod Shape
pub mod Visits
pub mod Graph
pub mod Iterate
pub mod Free
pub mod Spine
pub mod Client
pub mod Threading
pub mod InOrder
pub mod Returning
pub mod PreOrder
pub mod Drawing
mod Examples
