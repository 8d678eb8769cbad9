-- ===== src/Lib.antt =====
-- The parts of dparser, a generator of scannerless generalised LR parsers in C and the parser that
-- its tables drive: a grammar (`gram.c`) becomes LR(0) states (`lr.c`) and scanners for the terminals
-- of each state (`lex.c`); at run time `scan.c` matches the terminals of a state and `parse.c` keeps a
-- graph of stacks; `dsymtab.c` is the symbol table for the actions of a grammar, with versions of its
-- symbols for each speculative parse. `util.c` has the containers that all of them use.
--
-- Prelude passes on the names of the libraries, and has Boolean tests on the native numbers, lists
-- over them and lists without repetitions. Libc has the functions of the C library that the models
-- call: `qsort` as a record of what its documentation says, which Libc/Insertion fills, and those of
-- `ctype.h` for the scanners without any laws. Libc/Chars has `strtol` and the rest of `ctype.h`, with
-- what the standard says of hexadecimal digits. Libc/Text compares texts up to their NUL byte, as
-- `strncmp` does for texts of one length.
--
-- Util models `util.h` and `util.c`. Util/Vec is the vector (`vec_add`, `vec_add_internal`,
-- `vec_clear`): the pointer `v` is nothing, the array in the struct or a heap block, and a write
-- outside a block, or a size that overflows an `int`, is `none`. Util/Vec/Grow has the growth of the block and Util/Vec/Bounds the
-- theorems. Util/Set is the same struct used as a hash table of pointers (`set_find`, `set_add`,
-- `set_union`), with Probing, Adding and Total beneath it. A read behind the table of primes is the
-- outcome `exhausted`. The fuel of `set_add` is 30, since each level of the recursion takes a larger
-- one of the 29 primes. Util/Hashed is the table with a hash function and a comparison (`set_add_fn`,
-- `set_union_fn`), with the same outcomes and fuel: Probing has its loop, Laws what is valid of a table and when
-- it runs off the primes, Adding what a call does, and Same relates code that uses such a table to the same code
-- on what the table stands for.
--
-- Scan models `scan_buffer` of `scan.c`, with the tables of `dparse_tables.h` as lists. The three cases of its
-- `switch` differ in the width of a table entry and are one function, and a loop that runs off the
-- buffer is `none`. Scan/Longest, Match and Safety are about the loop over the input, Compact and
-- Select about the loops over the results. The pathname and the white space of a location are left
-- out.
--
-- Gram has the data of `gram.h` that the table builder reads, with numbers for pointers. Gram/Nullable
-- is `compute_nullable` and Gram/Utf8 is `new_utf8_char` of `gram.c`. Gram/Escape is
-- `unescape_term_string`, with a round of fuel for each byte and one more, and `escape_string_internal`
-- of `util.c`. The passes of
-- `compute_nullable` take one round of fuel for each production and one more.
--
-- Lr is `build_closure` of `lr.c` with all that it calls, and Lr/Closure its theorems. Its fuel is one
-- round for each item of the state and each rule of the grammar, and one more. The set of the items of a
-- state is a list there. Lr/Gotos has `build_state_for` and the body of the
-- loop of `build_new_states`, Lr/Actions `build_actions` and `goto_State`, and Lr/Hints the hints for right
-- recursion and for error recovery. Lr/Automaton puts them together: `build_new_states`, with a round for each
-- list of items that a state can hold and one to stop, `build_LR_sets` and `build_LR_tables`. Its children
-- say which items there are (Universe), how many states (Count), what a call adds (Added, Keeps), what a
-- round does (Visit, Rows), that the loop ends (Loop), that the sort of the gotos keeps them (Sorted) and
-- what a run over symbols reaches (Language, Start). All these have the list of states alone, as the specification.
-- Lr/Hashed has the functions that search states with the hash table `states_hash`, from `maybe_add_state` to
-- `build_LR_tables`; its children show that they do the same unless the table runs off the primes (Search, Sets) and
-- what they build (Correct).
--
-- Lex models `lex.c`, with numbers for the states of an automaton. Lex/Closure is `nfa_closure`, with a
-- round of fuel for each state and one more. Lex/Subset is `nfa_to_scanner` and `dfa_to_scanner`, with
-- a round for each set of states and one more. Its children say where the edges go (Edges), that the
-- loop ends (Count, Loop), what a run reads (Language, Start) and what is accepted (Accepts, Scanner). The
-- set `y->states` is a list by what sets promise. Lex/Regex is `build_regex_nfa`,
-- with the sets in Lex/Brackets, with a round for each byte of the expression and one more; a read behind its text is `overrun`, and a call of `d_fail` is
-- `failed`. Lex/Diff is `action_diff` and `action_intersect`. Lex/Liveness is `compute_liveness`, with a round of
-- fuel for each action in each state and one more, and Lex/Transitions `build_transitions` on a list of transitions;
-- Lex/Transitions/Hashed has it with its hash table, and `compute_transitions`, and Refines shows that both do the same. Lex/Strings is the tree of strings of `build_state_scanner`, and Lex/Scanners puts the
-- parts together in `build_state_scanner` and `build_scanners`; its children are about states that shift
-- strings (Strings) and about states with the same scanner (Same).
--
-- Parse models parts of `parse.c`: Parse/Priority is `check_child` and `check_assoc_priority`, Parse/Path
-- `check_path_priorities` on a graph of ZNodes,
-- Parse/Queue the two work lists (`add_Reduction`, `add_Shift`), Parse/Heap the heap of nodes (`heapify`,
-- `heap_insert`, `heap_pop`), with a step of fuel for each node and one more, and Parse/Ambiguity has the comparisons of two
-- lists of nodes; `get_unshared_pnodes`, which fills these, and `cmp_pnodes` are left out. Priorities, which the program only
-- compares, are natural numbers. The counting of references and the free lists are left out.
--
-- Symtab models `dsymtab.c` and `strhashl` of `util.c`, with positions in a store for pointers, and a list
-- of symbols for a chain of `next` links. Symtab/Scopes makes scopes, Symtab/Symbols makes, finds and
-- updates symbols, and Symtab/Commit has `commit_D_Scope` and `next_D_Sym_in_Scope`. The loops along
-- links between scopes have one round of fuel for each scope, since these links go to older scopes.
-- Symtab/Buckets is about the hash table, Versions about updates, with Links beneath them,
-- and Lookup about searches. The field `user` and the freeing of memory are left out.
--
-- Tests has runs of the models on small inputs.
--
-- Not modelled: the rest of the functions of these files; `dparse_tree.c`; input and output
-- (`write_tables.c`, `read_binary.c`, `arg.c`, `make_dparser.c`, `mkdparse.c`); the generated `grammar.g.c`; the test
-- programs and the bindings.
pub mod Gram
pub mod Lex
pub mod Libc
pub mod Lr
pub mod Parse
pub mod Prelude
pub mod Scan
pub mod Symtab
pub mod Tests
pub mod Util
