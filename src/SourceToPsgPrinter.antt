-- ===== src/SourceToPsgPrinter.antt =====
-- pass/src/SourceToPSGPrinter.cpp: for each source line, the ranks of the components that its
-- instructions are in. The rank of a component is its place in the topological order.
pub mod Lines
pub mod Ranks
pub mod Written
use Prim.Native.String.{String, ◌++◌ as ◌<>◌}
use icsa_dswp.Prelude.{
  ℕ, zero, suc, ◌+◌, true, false, Option, none, some, List, [], ◌∷◌, ◌++◌, ◌==◌, if◌then◌else◌,
}
use icsa_dswp.Std.{Ptr}
use icsa_dswp.Std.PtrSet.{PtrSet, insert}
use icsa_dswp.Std.PtrMap
use icsa_dswp.Std.PtrMap.{PtrMap}
use icsa_dswp.Outcome.{Outcome, ok, err, bad_dereference, ◌>>=◌, for_each}
use icsa_dswp.GraphUtils.{topsort}
use icsa_dswp.Ir.{Function}
use icsa_dswp.Psg
use icsa_dswp.Psg.{get_scc}
use icsa_dswp.Debug.{File, Location, DebugInfo, or_file}
use icsa_dswp.Output.{Piece, text, number, Stream}
use icsa_dswp.Util.{Parents, instruction_to_function_name}

-- the local variables of the first loop; the keys of the map are lines, its sets hold ranks
pub record Report : Type 0 where
  pub file : Option File
  pub line_to_sccs : PtrMap PtrSet

-- `find(ts.begin(), ts.end(), scc) - ts.begin()`
abbrev pub index_of : List Ptr → Ptr → ℕ
index_of [] scc = zero
index_of (t ∷ ts) scc = let rest = index_of ts scc in if t == scc then zero else suc rest

-- the body of the first loop
unfoldable pub visit : Psg.Pass → DebugInfo → List Ptr → Ptr → Report → Outcome Report
unfolding get_scc PtrMap.assign PtrMap.find insert
visit psg debug ts inst r = elim (debug.location inst) [
  | none ↦ ok r
  | some loc ↦ do
    scc ← get_scc psg inst
    ok (record {
      file = or_file r.file loc.file;
      line_to_sccs =
          PtrMap.assign loc.line
            (insert (index_of ts scc) (PtrMap.get_or r.line_to_sccs loc.line [])) r.line_to_sccs;
    })
]

unfoldable pub visit_all : Psg.Pass → DebugInfo → List Ptr → List Ptr → Outcome Report
unfolding visit for_each
visit_all psg debug ts insts =
    for_each (visit psg debug ts) insts (record { file = none; line_to_sccs = [] })

-- `for (auto &scc : line.second) fout << ' ' << scc;`
abbrev pub print_sccs : PtrSet → Stream → Stream
print_sccs [] rest = rest
print_sccs (scc ∷ s) rest = text " " ∷ number scc ∷ print_sccs s rest

-- `for (auto &line : lineToSCCs) ...`
abbrev pub print_lines : String → PtrMap PtrSet → Stream
print_lines name [] = []
print_lines name ((line, s) ∷ m) =
    text name ∷ text ":" ∷ number line ∷ print_sccs s (text "\n" ∷ print_lines name m)

-- the set that a pointer to a component points to
unfoldable pub set_at : (Ptr → Ptr) → PtrMap PtrSet → Ptr → Option PtrSet
set_at address [] scc = none
set_at address ((root, s) ∷ m) scc =
    let rest = set_at address m scc in if address root == scc then some s else rest

-- `**firstSCC->begin()`, where `firstSCC` is `G.nodes_begin()->first`
unfoldable pub first_inst : (Ptr → Ptr) → Psg.Pass → Outcome Ptr
unfolding set_at
first_inst address psg = elim psg.psg.nodes [
  | [] ↦ err bad_dereference
  | (scc, deps) ∷ m ↦ elim (set_at address psg.sccs scc) [
    | some (inst ∷ s) ↦ ok inst
    | other ↦ err bad_dereference
  ]
]

-- `SourceToPSGPrinter::runOnFunction`: the file that it writes, if it writes one, with its name.
unfoldable pub run_on_function :
    (address : Ptr → Ptr) (psg : Psg.Pass) (f : Function) (debug : DebugInfo) (parents : Parents)
    → Outcome (Option (String × Stream))
unfolding first_inst instruction_to_function_name topsort visit_all
run_on_function address psg f debug parents = do
  inst ← first_inst address psg
  let output = instruction_to_function_name parents inst <> ".psg-report"
  ts ← topsort psg.psg
  r ← visit_all psg debug ts f.insts
  ok (elim r.file [ none ↦ none | some file ↦ some (output, print_lines file.name r.line_to_sccs) ])
