-- ===== src/Lib.antt =====
-- siesta: a generator of C++ clients and servers from OpenAPI documents, and its run-time library.
--
-- The program reads an OpenAPI document (generator/src/Frontend), makes a table of normalized types
-- of its schemas, checks that every reference has its type, sorts the types by their dependencies
-- (generator/src/IR), makes a list of endpoints of its paths, and writes C++ code (generator/src/Backend).
-- The code that it writes uses the headers of include/siesta.
--
-- PathTree: include/siesta/path_tree.hpp, the tree of path segments. `insert`, `at`, `contains`, `size`
--   and the wildcard lookup take a path that `segments` has split at its slashes.
-- Encoding: include/siesta/encoding.hpp, `url_encode` and the overloads of `query_value`.
-- Support: generator/src/Support/Utils.hpp and Utils.cpp, the names and literals that are put into C++ code.
-- Frontend.Ast: generator/src/Frontend/AST.hpp and AST.cpp, the table of normalized types, and `validate`.
-- Frontend.Schema: generator/src/Frontend/openapi.hpp, the schemas of a document as their accessors show
--   them. The JSON library is not modelled: a schema is the values of its accessors.
-- Frontend.Parser: generator/src/Frontend/SchemaParser.cpp, from schemas to normalized types. The state is
--   the table of types and the set `added_types`. `std::to_string` is a parameter, `Printing`.
-- Driver: generator/src/Driver/Driver.cpp, the loops over schemas and paths, and how a run ends.
-- Ir.Graph: generator/src/IR/DependencyGraph.hpp and DependencyGraph.cpp, the graph of dependencies,
--   `Sort` its topological order, `Cycles` the search for cycles, `Types` the order of emission.
-- Ir.Endpoint: generator/src/IR/EndpointIR.hpp and EndpointIR.cpp. `Collect` is what is read of the
--   document, `Build` the loop that builds endpoints, `Template` the path template, `Order` the merge of
--   the parameters, `Groups` the endpoints and their parameters, `Paths` paths with placeholders.
-- Frontend.Methods: generator/src/Frontend/openapi.cpp, request methods and their names.
-- Ir.Aliases: generator/src/IR/DefsGenerator.cpp, how names resolve along typedefs and variants of one alternative.
-- Validator: jsonschema/src/schema_types.hpp and schema_types.cpp, a program of its own that checks a JSON value
--   against a schema. `Build` is build_schema_tree, `Refs` collect_anchors, find_ref and compile; `Leaves`,
--   `Branches` and `Check` are the cases of validate_node, with the errors and the context as state. `Outside`
--   has what comes from simdjson, <cmath> and <regex>. A read through a pointer to a variable that is gone
--   is an outcome, `undefined`, an exception is another, `threw`.
-- AsyncQueue: include/siesta/asio/queue.hpp, `async_queue` as a relation of steps on its values, the polls that
--   wait and the calls of handlers. Boost's timer is the part of the steps that the program does not choose.
-- Tests: the theorems at concrete inputs.
--
-- Texts are lists of bytes. A std::unordered_map is an association list, and the order in which it is
-- iterated is a parameter, `HashOrder`: any permutation of the entries, so that what is proved holds for
-- every standard library. Degrees of nodes are integers, as the code takes one away before it compares.
--
-- Fuel: the loop along the typedefs has one step for each typedef; the search for cycles has as much as
-- there are nodes, the loop of the sort one step for each node and the loop over the lines of a comment
-- one step for each byte. For these, running out is a result of its own, `none`, and the theorems say
-- that it does not happen. The recursion along variants has no end in the code where they form a circle,
-- and so has as much fuel as it is given; if the names have ranks that go down along such variants, fuel
-- above the rank of a name is enough. The validation of a schema has fuel for nested visits, since references can make it run
-- for ever; for the schemas of which a theorem says that validation gives an answer, fuel above the
-- height of the compiled tree is enough.
--
-- Not modelled: the code generators, which write text to files, but for the names they resolve; the HTTP
-- client and server, which are calls of Boost; simple_blocking_queue, which waits on a lock that is not
-- locked; the JSON accessors of openapi.cpp; logging; the callback of the schema validator and its main.cpp.
pub mod Prelude
pub mod Support
pub mod Tests
pub mod AsyncQueue
pub mod Validator
pub mod PathTree
pub mod Driver
pub mod Encoding
pub mod Frontend
pub mod Ir
