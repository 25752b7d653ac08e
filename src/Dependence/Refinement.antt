-- ===== src/Dependence/Refinement.antt =====
-- The contract of `DependenceGraph`: a set of nodes with a relation on them. Every history of
-- calls on the class is followed by the relation, the answers and the exceptions included.
use icsa_dswp.Prelude.{
  ◌≡◌, refl, sym, ap, ◌∙◌, Bool, false, not, ◌&&◌, ◌||◌, Option, none, some, inl, inr, List, [],
  ◌∷◌, ◌++◌, arith, ◌==◌, if◌then◌else◌, Bool-cases,
}
use icsa_dswp.Std.{Ptr}
use icsa_dswp.Std.PtrMap
use icsa_dswp.Outcome.{
  Outcome, ok, err, out_of_range, bad_dereference, out_of_fuel, ◌>>=◌, for_each,
}
use icsa_dswp.Dependence.{
  DependenceGraph, add_node, add_edge, remove_node, remove_edge, depends_on, clear, has_node,
  has_edge,
}
use icsa_dswp.Dependence.Laws.{
  has_node-add_node, has_edge-add_node, has_node-add_edge, has_edge-add_edge, has_node-remove_node,
  has_edge-remove_node, remove_edge_missing, remove_edge_lem, depends_on_lem,
}
use icsa_dswp.Dependence.Order.{
  IsOrdered, empty-IsOrdered, add_node-IsOrdered, add_edge-IsOrdered, remove_node-IsOrdered,
  remove_edge-IsOrdered, depends_on-IsOrdered,
}

-- The calls that may change a graph, as data.
pub data Call : Type 0 where
  adding_node : Ptr → Call
  adding_edge : (from to : Ptr) → Call
  removing_node : Ptr → Call
  removing_edge : (from to : Ptr) → Call
  asking : (a b : Ptr) → Call
  clearing : Call

-- The graph, and what `dependsOn` has answered so far, in order.
pub record Session : Type 0 where
  pub graph : DependenceGraph
  pub answers : List Bool

abbrev with_graph : Session → DependenceGraph → Session
with_graph s g = record s { graph = g }

abbrev with_answer : Session → DependenceGraph × Bool → Session
with_answer s (g, answer) = record { graph = g; answers = s.answers ++ (answer ∷ []) }

-- the graph after `removeEdge`, if it does not throw
abbrev graph_of : Session → Outcome DependenceGraph → Outcome Session
graph_of s (ok g) = ok (with_graph s g)
graph_of s (err e) = err e

pub perform : Call → Session → Outcome Session
unfolding clear
perform (adding_node a) s = ok (with_graph s (add_node a s.graph))
perform (adding_edge a b) s = ok (with_graph s (add_edge a b s.graph))
perform (removing_node a) s = ok (with_graph s (remove_node a s.graph))
perform (removing_edge a b) s = graph_of s (remove_edge a b s.graph)
perform (asking a b) s = ok (with_answer s (depends_on a b s.graph))
perform clearing s = ok (with_graph s (clear s.graph))

-- The abstract graph.
pub record Relation : Type 0 where
  pub node : Ptr → Bool
  pub edge : Ptr → Ptr → Bool
  pub answered : List Bool

abbrev pub nothing : Relation
nothing = record { node = λ n. false; edge = λ x y. false; answered = [] }

abbrev with_node : Ptr → Relation → Relation
with_node a r = record r { node = λ n. a == n || r.node n }

-- `none` is the exception.
pub specify : Call → Relation → Option Relation
specify (adding_node a) r = some (with_node a r)
specify (adding_edge a b) r =
    some (record r { node = λ n. a == n || r.node n; edge = λ x y. a == x && b == y || r.edge x y })
specify (removing_node a) r = some (record r {
  node = λ n. not (a == n) && r.node n;
  edge = λ x y. not (a == x) && not (a == y) && r.edge x y;
})
specify (removing_edge a b) r =
    if r.node a
    then some (record r { edge = λ x y. not (a == x && b == y) && r.edge x y })
    else none
specify (asking a b) r =
    some (record (with_node a r) { answered = r.answered ++ (r.edge a b ∷ []) })
specify clearing r = some (record nothing { answered = r.answered })

pub record Follows (s : Session) (r : Relation) : Type 0 where
  pub ordered : IsOrdered s.graph
  pub nodes : (n : Ptr) → has_node s.graph n ≡ r.node n
  pub edges : (x y : Ptr) → has_edge s.graph x y ≡ r.edge x y
  pub answers : s.answers ≡ r.answered

-- Both succeed with the same graph and the same answers, or both throw.
abbrev pub Agrees : Outcome Session → Option Relation → Type 0
Agrees (ok s) (some r) = Follows s r
Agrees (err out_of_range) none = Unit
Agrees _ _ = ⊥

perform-Agrees :
    (c : Call) (s : Session) (r : Relation) → Follows s r → Agrees (perform c s) (specify c r)
unfolding perform specify PtrMap.find
perform-Agrees (adding_node a) s r f = record {
  ordered = add_node-IsOrdered a s.graph f.ordered;
  nodes = λ n. ground (arith, has_node-add_node a s.graph n, f.nodes n);
  edges = λ x y. ground (arith, has_edge-add_node a s.graph x y, f.edges x y);
  answers = f.answers;
}
perform-Agrees (adding_edge a b) s r f = record {
  ordered = add_edge-IsOrdered a b s.graph f.ordered;
  nodes = λ n. ground (arith, has_node-add_edge a b s.graph n, f.nodes n);
  edges = λ x y. ground (arith, has_edge-add_edge a b s.graph x y, f.edges x y);
  answers = f.answers;
}
perform-Agrees (removing_node a) s r f = record {
  ordered = remove_node-IsOrdered a s.graph f.ordered;
  nodes = λ n. ground (arith, has_node-remove_node a s.graph n, f.nodes n);
  edges = λ x y. ground (arith, has_edge-remove_node a s.graph x y, f.edges x y);
  answers = f.answers;
}
perform-Agrees (removing_edge a b) s r f = elim (Bool-cases (has_node s.graph a)) [
  | inl there ↦
      let (g', same, nodes, edges) = remove_edge_lem a b s.graph there in
      rw (same, sym (f.nodes a) ∙ there)
        (record {
          ordered = remove_edge-IsOrdered a b s.graph g' f.ordered same;
          nodes = λ n. nodes n ∙ f.nodes n;
          edges = λ x y. ground (arith, edges x y, f.edges x y);
          answers = f.answers;
        })
  | inr missing ↦ rw (remove_edge_missing a b s.graph missing, sym (f.nodes a) ∙ missing) tt
]
perform-Agrees (asking a b) s r f =
    let (answer, nodes, edges) = depends_on_lem a b s.graph in
    record {
      ordered = depends_on-IsOrdered a b s.graph f.ordered;
      nodes = λ n. ground (arith, nodes n, f.nodes n);
      edges = λ x y. ground (arith, edges x y, f.edges x y);
      answers =
          ap (λ o. s.answers ++ (o ∷ [])) (answer ∙ f.edges a b)
          ∙ ap (λ os. os ++ (r.edge a b ∷ [])) f.answers;
    }
perform-Agrees clearing s r f = record {
  ordered = empty-IsOrdered;
  nodes = λ n. refl;
  edges = λ x y. refl;
  answers = f.answers;
}

pub specify_all : List Call → Relation → Option Relation
specify_all [] r = some r
specify_all (c ∷ cs) r = elim (specify c r) [ none ↦ none | some r' ↦ specify_all cs r' ]

-- Whatever calls are made on a well-formed graph that follows an abstract graph, either all of them
-- succeed on both, the graph is again well-formed and follows the abstract one and each `dependsOn`
-- has answered whether the abstract graph had the edge from its first argument to its second when
-- it was called, or the calls on
-- the graph end in the exception exactly where the abstract ones do: at the first `removeEdge`
-- whose source is no node.
pub history-Agrees :
    (cs : List Call) (s : Session) (r : Relation)
    → Follows s r
    → Agrees (for_each perform cs s) (specify_all cs r)
unfolding for_each specify_all
history-Agrees [] s r f = f
history-Agrees (c ∷ cs) s r f =
    step (perform c s) (specify c r) (perform-Agrees c s r f) (history-Agrees cs)
  where
    step :
        (o : Outcome Session) (t : Option Relation)
        → Agrees o t
        → ((s' : Session) (r' : Relation)
            → Follows s' r'
            → Agrees (for_each perform cs s') (specify_all cs r'))
        → Agrees (o >>= for_each perform cs) (elim t [ none ↦ none | some r' ↦ specify_all cs r' ])
    step (ok s') (some r') h ih = ih s' r' h
    step (ok s') none h ih = absurd h
    step (err out_of_range) none h ih = tt
    step (err out_of_range) (some r') h ih = absurd h
    step (err bad_dereference) t h ih = absurd h
    step (err out_of_fuel) t h ih = absurd h
