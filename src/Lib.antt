-- ===== src/Lib.antt =====
-- The security server of libsepol with the bitmaps, security levels, access vector tables,
-- conditional expressions, hash tables and SID tables under it; libsepol is the C library for
-- SELinux policies in crates/policy/libsepol.
--
-- Parts, with the files that model them; L is crates/policy/libsepol:
-- - Common: helpers. Boolean tests, lists, the bits of numbers, results with an error, and
--   the array of chains that the three tables share (Common/Buckets).
-- - Ebitmap: L/src/ebitmap.c and L/include/sepol/policydb/ebitmap.h. A bitmap is a list of nodes,
--   each with a start and a map of 64 bits, and a high bit. `Ebitmap.or` is `ebitmap_or`, and so
--   on for and, xor, not, andnot, cpy, get_bit; Ebitmap/Compare has `ebitmap_cmp`,
--   `ebitmap_contains` and `ebitmap_match_any`, Ebitmap/Update `ebitmap_set_bit`, Ebitmap/Range
--   `ebitmap_init_range`, and Ebitmap/Walk the iteration macros, `ebitmap_cardinality`,
--   `ebitmap_hamming_distance` and `ebitmap_highest_set_bit`. Ebitmap/Shape says when a bitmap is
--   well formed. Ebitmap/Binary has `ebitmap_read` and, of L/src/write.c, `ebitmap_write`.
-- - PolicyFile: `next_entry` and `put_entry` of L/src/services.c on a policy in memory, and the
--   little-endian words of L/src/private.h. A byte is a number that counts modulo 256.
-- - Mls: L/include/sepol/policydb/mls_types.h, L/include/sepol/policydb/context.h and of
--   L/src/mls.c `mls_setup_user_range`, the copies of ranges (Mls/Contexts) and `mls_compute_sid`
--   (Mls/Transition), where the table of range transitions is a function from its keys. A level
--   has a sensitivity and a bitmap of categories. Mls/Binary has `mls_read_level` and
--   `mls_read_range_helper` of L/src/policydb.c and their writers in L/src/write.c.
-- - Conditional: L/src/conditional.c. `evaluate_expr` is `cond_evaluate_expr`, Conditional/Node
--   has `cond_normalize_expr`, `cond_expr_equal` and `cond_node_find`, and Conditional/Rules has
--   `evaluate_conds` and `cond_optimize`.
-- - Avtab: L/src/avtab.c and L/include/sepol/policydb/avtab.h. A table is a list of chains in
--   order; `Avtab.insert` is `avtab_insert`, and so on, and Avtab/Alloc has `avtab_alloc`.
--   Avtab/Chain is about one chain, Avtab/Table and Avtab/Insertion about a whole table, Avtab/Walk
--   has the loop over all rules of a key, and Avtab/Found is about the rule that a search finds.
-- - Hashtab: L/src/hashtab.c and L/include/sepol/policydb/hashtab.h. The functions for hash values
--   and comparisons are a record of operations (KeyOps) with what a table relies on (KeyLaws).
--   Hashtab/Chain and Hashtab/Place are about one chain and one array, Hashtab/Growth and
--   Hashtab/Resize about the doubling of the slots, Hashtab/Laws and Hashtab/History about a whole
--   table, and Hashtab/Symtab has L/src/symtab.c, where `strcmp` is a parameter.
-- - Symbols: `cat_read` and `sens_read` of L/src/policydb.c and their writers in L/src/write.c, with
--   `str_read` of L/src/services.c: PolicyFile, Mls/Binary and Hashtab at work together.
-- - Sidtab: L/src/sidtab.c and L/include/sepol/policydb/sidtab.h. `Sidtab.context_to_sid` is
--   `sepol_sidtab_context_to_sid`, and so on; Sidtab/View has the context of each SID, and
--   Sidtab/View/Scan and Sidtab/View/Assign the search for a context and the new SIDs.
-- - Security: L/src/services.c and L/include/sepol/policydb/constraint.h. `Constraint.evaluate` is
--   `constraint_expr_eval_reason` without the text that it builds for people, and
--   Security/Constraint/Postfix has the formulas that constraints are written for.
--   Security/TypeRules has the loops over the rules of the two tables, with `cond_compute_av` of
--   L/src/conditional.c, and `Decision.compute_av` is `context_struct_compute_av`, with
--   `type_attribute_bounds_av`; Security/TypeRules/Gather is about the rules that the loops gather,
--   Security/Decision/Limits about constraints, roles and bounds, Security/Decision/Sound about the
--   whole decision, and Security/Decision/Sids has the entries that take SIDs.
--   Security/Validity has `context_is_valid` of L/src/context.c and `mls_context_isvalid` of
--   L/src/mls.c, and Security/Transition has `sepol_compute_sid`, which brings the rules of the
--   tables, Mls/Transition, Security/Validity and Sidtab together.
-- - Optimize: L/src/optimize.c, the rules of the unconditional table. `optimize_avtab` and
--   `build_type_map` have the source's names; `optimize_chain` is the walk over one chain, which
--   takes a rule out or leaves it with what no other rule covers. Optimize/Masks, Rules, Table and
--   Covering are about one comparison of two rules, Walks and Slots about the loops,
--   Optimize/TypeMap about the map, and Optimize/Laws and Decisions bring them to the decisions
--   of Security/Decision. The maps are those that `policydb_read` builds: an attribute stands in
--   its own entry of type_attr_map and in no entry of attr_type_map of its own, and the types of
--   contexts and of bounds are types, not attributes.
--
-- A decision walks the attribute sets of the two types (Ebitmap), searches the two access vector
-- tables for each pair of attributes (Avtab/Walk), and evaluates constraints on the levels of the
-- two contexts (Mls). The levels use the bitmaps through get_bit, and, contains and cmp; the
-- conditional nodes turn the bit AVTAB_ENABLED of the rules of an access vector table on and off. Conditions read the
-- states of the policy's booleans, which are a function of the boolean's value here; a list of
-- rules is the list of their addresses.
--
-- Numbers are natural numbers with the wrap of uint32_t and uint64_t written out. A function that
-- returns a status and writes to a parameter returns the new value, or an error. The loops whose
-- counter wraps (`ebitmap_not`, `ebitmap_init_range`, the iteration) run on fuel, one unit for
-- each round: a round per 64 bits in the first two, and one per bit in the iteration, so fuel of
-- the bound over 64 and one or two more, and of the high bit and one more, is enough.
-- A decision recurs on the bounds of the source's type, on fuel of one unit for each step to a
-- bounding type and one more. The arrays that the policy indexes by a value, and the data that
-- it finds so, are functions of the value.
--
-- `avtab_alloc` counts the bits of a uint32_t in at most 32 rounds, and `hashtab_check_resize`
-- doubles the slots in at most 32: then the doubled number has wrapped to 0. The callbacks of the
-- maps over a table, and of `hashtab_remove`, are functions with a state of their own. A table that
-- is freed is empty; the SID table's locks are empty macros. The SID table's chains are there
-- whenever the source walks them without a test of the pointer. After an error of `ebitmap_read`
-- the position of the file is not kept, as the caller gives up the file.
--
-- Not modelled: failure of malloc, log messages, the text that explains a denial, policy files
-- behind a C stream, the conditional lists of `policydb_optimize`, the parser's fields of an avtab
-- node, the rest of the reader of the binary format, and the other files of libsepol and of the
-- crates around it.
pub mod Common
pub mod Ebitmap
pub mod Mls
pub mod Conditional
pub mod Avtab
pub mod Hashtab
pub mod Optimize
pub mod PolicyFile
pub mod Security
pub mod Sidtab
pub mod Symbols
