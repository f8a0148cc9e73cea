-- ===== src/Lib.antt =====
-- SUPREM-IV.GS, the process simulator in C that the web application runs (SUPREM4GS/upstream/src):
-- the parts of it that are discrete.
--
-- A command line is split into `name=value` arguments (check/split.c). The values are stored in
-- the parameters of the command (include/check.h), which get defaults and are checked
-- (check/check.c) and are read back by name (misc/get.c). Values and plotted quantities are
-- expressions: check/lexical.c cuts them into tokens, a parser with one token of look-ahead
-- reduces a stack (check/parse.c, check/reduce.c), and the tree is evaluated, to a number or to an
-- array over the nodes of the mesh (check/eval.c, check/vector.c). Before a line is parsed the
-- shell puts macros for their names (shell/macro.c), whose bodies are evaluated as expressions
-- where they are such. The commands work on the mesh database (dbase): nodes, triangles and
-- regions in growing lists (dbase/list.c), the neighbours of a node (dbase/neigh.c), from which
-- math/symb.c takes the pattern of the matrices, whose order of elimination math/min_fill.c finds,
-- the nodes at the points of the mesh (dbase/node.c), the edges that triangles share
-- (geom/tnabor.c), and the table of the solution variables (dbase/alloc.c, dbase/dispose.c).
--
-- Prelude       names, Boolean tests, list lemmas and the digits of `bit_and` that all share.
-- Expr          the expressions. Token is include/expr.h, Reduce is reduce.c, Parse is parse.c, Eval
--               is eval_real of eval.c with single_char of lexical.c. Names is the tables of names of
--               lexical.c and vector.c, Lexical is lexical with parse_real of verify.c and the
--               loop of parse_expr over a text. Grammar is the grammar of the comments as an
--               inductive family, Syntax the expressions with precedences and their printer. Vector
--               is eval_vec of eval.c with get_solval and vfunc of vector.c, in Vector/Run, and
--               RoughGrad, in Vector/Rough. The other files are named for what they prove, and
--               Sample holds the numbers of the tests.
-- Params        the parameters. Get is misc/get.c; BoolCheck, Check and Default are check/check.c;
--               Split is check/split.c; Command is check/verify.c, with check in Command/Card, which
--               puts Split, Default, Check and Expr together.
-- Dbase         the mesh database. ListStr is list.c, Neigh is neigh.c with get_connect and
--               clean_list of math/symb.c, Impurity is add_impurity and lose_impurity, Waste is
--               waste of dispose.c, Nodes is node.c with pt_to_node of point.c, Remove is
--               rem_1nd of remove.c.
-- Shell         the command shell. Macro is define_macro and undef_macro of shell/macro.c, Lists is
--               list_parse of shell/list.c, Expand is expand_macro and arg_expand, Session the
--               commands define and undef of shell/parser.y. Pieces is the line as the user means
--               it; the other files are named for what they prove.
-- Geom          tnabor of geom/tnabor.c.
-- Matrix        the pattern of the sparse matrices. Locate is iaja and Generate is
--               generate of math/generate.c; Fill is min_ia_fill of math/min_fill.c in two
--               dimensions.
--
-- The stack of tokens is a list with the top first, and a write outside its 100 entries is an
-- outcome of its own, as is a read through a null pointer. A loop runs on fuel where it is not a
-- recursion on a list: the reductions before one token on the height of the stack and 2 more, the
-- split of a line on its length, the tokens of a text on its length and 1 more. The loop of
-- expand_macro runs on the length of the text and 1 more, with a depth of 2 for the calls of
-- itself through arg_expand, whose macros have no arguments, and 2 is the depth of rem_1nd too.
-- The loop of generate that asks again for longer lists takes its fuel as an argument. Array
-- accesses that the source does not guard are `none` or an outcome `out_of_bounds`. The fields
-- `num` and `all` of a list are the 16 bits of a short, the degrees of min_ia_fill are ints with 2
-- ^ 31 added, and neigh_list has its 200 entries. The value of a parameter stands in a store under
-- the parameter's address, since the legality functions read the very objects that the checks
-- write.
--
-- Floats, the mathematical library, the union `val_str`, `isspace`, `isdigit`, `tolower`,
-- `sscanf`, `sprintf` of "%g", `isalnum`, what eval_real calls of misc/sint.c, and of the vector
-- functions the data files, the edges of the nodes and their coordinates, and the values that the physical models give are
-- parameters. Not modelled: the numerics (diffuse, oxide, finel, device, implant, refine and the
-- factorisation of math), the generated parsers (keyread, shell/parser.c), the loops of the shell
-- over floats, its processes, input and output, graphics, and the web application around the
-- simulator.
pub mod Dbase
pub mod Expr
pub mod Geom
pub mod Matrix
pub mod Params
pub mod Prelude
pub mod Shell
