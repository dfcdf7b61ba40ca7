-- ===== src/Lib.antt =====
-- Promate stores Graphite metrics in a Prometheus-like database and answers Graphite and MateQL
-- queries from it. This library models the code that decides what is stored and what is asked.
--
-- The parts and how they meet:
-- * cmd/mateinsert/main.go turns a Graphite line `a.b.c 1 time` into a put with the metric name
--   `a` and one label `__a_g1__`, `__a_g2__` for each further segment: `convertGraphite`. File
--   Insert.
-- * prometheus/glob.go turns a segment of a Graphite target into a regular expression, and
--   prometheus/converter.go a target into label filters and an answer back into a Graphite path:
--   `GlobToRegexPattern`, `LabelFilters.Build`, `ConvertGraphiteTarget`, `ConvertQueryLabel`,
--   `ConvertPrometheusMetric`. Files Prometheus/Glob and Prometheus/Converter. The pieces of a
--   target are joined with what mateinsert stored under Pipeline.
-- * mateql/ parses, rewrites and prints MateQL. Its lexer (lexer.go) is in Mateql/Chars, Scan,
--   Ident, Literals, Escape and Lexer; the table of operators (binary_op.go) in Mateql/BinaryOp;
--   the evaluation on floats (binary_op.go, binaryop/funcs.go) in Mateql/Eval; the expressions of
--   parser.go in Mateql/Ast, `balanceBinaryOp` in Mateql/Balance, `removeParensExpr` and
--   `simplifyConstants` in Mateql/Simplify, the methods `AppendString` in Mateql/Print, the
--   methods `parse*` in Mateql/Parse, the expansion of WITH in Mateql/Expand, `Parse` as a whole
--   in Mateql/Compose, `removeDuplicateLabelFilters` in Mateql/Duplicates; the tables of
--   functions (aggr.go, rollup.go, transform.go) in Mateql/Functions; the cache of compiled
--   expressions (regexp_cache.go) in Mateql/RegexpCache.
-- * prometheus/mateql.go replaces the Graphite names in a parsed query by metric names and
--   filters, and the arguments `gN` of its modifiers by labels: `covertExpr`, `CovertMateQuery`.
--   File Prometheus/Covert; Pipeline/Grouping joins it with what mateinsert stored.
-- * prometheus/response.go reads the pairs of an answer: `UnmarshalJSON`. File
--   Prometheus/Response.
-- * cmd/matecarbon/main.go asks for the values of a label and answers with paths: `Find`; it
--   aligns the values of a metric with the times of a request: `Render`. Files Carbon/Find and
--   Carbon; Pipeline/Browsing joins the paths with what mateinsert stored.
-- * cmd/matequery/main.go joins paths with `singleJoiningSlash` and sends requests on with their
--   queries as PromQL. Files Query and Query/Director.
-- Base has the shared library names, tests, lists, integers, the result type and the loop over
-- bytes; Text has strings of bytes, their search and split, decimal numbers and UTF-8; Examples
-- has runs on concrete inputs.
--
-- How the code is modelled:
-- * A Go string is a list of its bytes, a byte a number; `codes "..."` writes one. The functions
--   of the package strings that the code calls are in Text, over those bytes.
-- * A function that returns an error returns a `Result`, with a constructor for a panic and one
--   for fuel that ran out; where only one failure exists it is an `Option`.
-- * The lexer is a record of its text, its token, the two stacks of tokens and its error; `next`
--   and `prev` take and return it. `next` recurses on fuel behind comments, and is given the
--   length of the text and one, which is enough, since each comment is shorter than the text. A
--   scanner loops over the bytes that are left, by structural recursion; a round says how many it
--   passes over.
-- * A path matches a Graphite target where each `*` stands for exactly one segment
--   (Pipeline/Paths). The filters of the code also accept paths that end where wildcards alone
--   are left; the theorems name these apart, as cut short.
-- * Expressions are a data type in one block with their lists. The rewritings of the source
--   overwrite nodes that have one owner; here they return new ones. The 64-bit floats are a
--   parameter, a record of operations (Mateql/Floats), with the laws of IEEE 754 on NaN as
--   hypotheses where they count.
-- * The parser passes the lexer on as its state. A level of nested expressions costs a unit of
--   fuel, as does a round of a loop; every one reads a token, so the length of the text and one
--   is enough. Of an error message the word that it complains about is kept.
-- * The entries of WITH that are in scope are a list with the last one first. A use of an entry
--   costs a unit of fuel; an entry is used with those in front of it and its arguments, so as
--   many uses follow each other as there are entries and parameters (Mateql/Expand/Weight).
-- * `strconv.Quote`, `Unquote` and `ParseFloat`, `regexp.Compile` and the order in which Go
--   visits a map are parameters.
-- * Times in Carbon are whole seconds and no negative numbers. `Render` has them as floats, which
--   are exact for them; its theorem asks that a step does not reach back behind 1970.
-- * A tree of expressions has each metric once. Where WITH used one twice the source has one
--   node, which `covertExpr` converts at its first place; here each place is converted, to the
--   same filters, so only the name that goes on to the next part, and with it the label of a
--   later modifier, may differ.
-- * Lengths and positions are unbounded numbers, since a string fits into memory; counters of 64
--   bits wrap, and `strconv.Atoi` has the bound of a 64-bit int.
--
-- Not modelled: `DurationValue` and the step of a query in `Render`, which are computed in
-- floats; the choice of its rollup function by regular expressions; the requests to the database,
-- the HTTP servers, sockets, flags, metrics and configuration of the three commands; and the
-- structures of prometheus/response.go that only name fields.
pub mod Base
pub mod Text
pub mod Mateql
pub mod Prometheus
pub mod Insert
pub mod Query
pub mod Carbon
pub mod Pipeline
mod Examples
