-- ===== src/Lib.antt =====
-- The interpreter of the autotuning language of falcon-lib, with the engine that loads its files and the
-- package manager that finds them, as definitions that compute, with theorems about them.
--
-- The program. An autotuner is a state machine written in the language FAL. `Interpreter`
-- (dsl/src/Interpreter.cpp) runs one: it initializes variables, inputs and outputs, then runs the body of
-- one state after another until a state ends the run. `StmtExecutor` (dsl/src/StmtExecutor.cpp) runs the
-- statements of a body, and `ExprEvaluator` (dsl/src/ExprEvaluator.cpp) evaluates expressions; a routine
-- of a struct makes the evaluator run statements again, in an environment of its own. All of them share
-- two registries: `FunctionRegistry` and `TypeRegistry` (dsl/src and dsl/include/falcon-dsl). They walk
-- the trees of dsl/compiler/include/falcon-atc/AST.hpp and pass the values of
-- typing/include/falcon-typing/PrimitiveTypes.hpp around.
--
-- `AutotunerEngine` (dsl/src/AutotunerEngine.cpp) loads a source file: it asks the package manager for the
-- file's imports, loads these first, and registers what the file declares in the two registries, so that
-- programs can call one another. The package manager (dsl/package-manager) finds the project of a file,
-- resolves an import to a file, keeps a copy of it in a cache under its digest, and keeps the project's
-- manifest falcon.yml. The language server (dsl/lsp) lists the symbols of the program that is being edited
-- and checks its calls.
--
-- The files.
--   Base        lists, integers, text and maps over the native numbers
--   Syntax      AST.hpp: type descriptors, expressions, statements, declarations
--   Errors      the exceptions, and results that may be one
--   Value       RuntimeValue and the heap; Value/Memory the objects on it
--   Int64       int64_t arithmetic; Int64/Division the truncated quotient
--   Ops         apply_binary_op and apply_unary_op; Ops/Laws the comparisons
--   Registry    Types is TypeRegistry, Functions is FunctionRegistry, each with Laws
--   Generics    substitute_type and monomorphize_struct; Generics/Laws
--   Eval        the evaluator's state and monad; Eval/Simple eval_variable to eval_member, Eval/Call
--               eval_call, Eval/Environment and Eval/Routine exec_struct_routine, Eval/Method
--               eval_method_call, Eval/Index eval_index. The Frame module beside each is about the
--               variables while it runs; Eval/Call/Resolve and Eval/Routine/WriteBack are about one behaviour
--   Exec        StmtExecutor; Exec/Assign its assignments; Keys modules beside each
--   Machine     evaluate and execute_block tied together on fuel; Machine/CallFree, Machine/Termination
--   Interpreter Interpreter.cpp; Interpreter/Scope its variables, Interpreter/Outputs its outputs,
--               Interpreter/Trace its states as a relation
--   Arrays      the array library libs/collections/array/array-wrapper.cpp
--   Files       the file system; Files/Paths std::filesystem::path, Files/Laws and Files/Removal its changes
--   Packages    Reply the exceptions, Cache PackageCache.cpp, Resolver PackageResolver.cpp, Manifest
--               PackageManifest.cpp, Manager PackageManager.cpp (dsl/package-manager/src). Cache/Store is
--               about one store, Cache/Integrity and Cache/Runs about sequences of commands,
--               Manager/Names about the dependencies
--   Engine      AutotunerEngine.cpp: its tables and registrations; Engine/Imports the scan for imports,
--               Engine/Foreign native code, Engine/Load load_fal_file with Engine/Load/Registering,
--               Engine/Run the calls, Engine/Bare is about names without a module. Load/Ends and Load/Cycle are about the fuel of a load
--   Server      of the language server dsl/lsp/src: Symbols is TypeChecker.cpp, Diagnostics is
--               SemanticAnalyzer.cpp; Diagnostics/Known is about the functions it knows,
--               Diagnostics/Programs about the programs without diagnostics
--   Strings     the string library libs/strings/strings-wrapper.cpp; Strings/Search std::string::find,
--               Strings/Replacing the loop of ReplaceAll, Strings/Foreign
--               conversions, regular expressions and Format; Strings/Positions is about positions
--   Samples     sample programs, runs and instances of the theorems
--
-- State and errors. An action is a function from a state (the variable environment, the heap, the two
-- registries) to a result and a state: what was written before a throw stays written. A `shared_ptr` is an
-- optional address on a heap whose objects are never freed. `EvaluationError` is `evaluation`, any other
-- exception is `exception`; the text of a message is a constructor with what the text shows. What C++
-- leaves undefined (signed overflow) is the failure `undefined`.
--
-- Fuel. A program need not end, so evaluate and execute_block spend one unit of fuel whenever one is
-- reached from inside the other or from itself, and the loop over the states spends one unit of rounds for
-- each state it enters. Without fuel the failure is `timeout`, which no statement catches or changes. Modules
-- Fuel compare a run with one on more fuel, modules Ends find actions that need no more than they have,
-- and Machine/Termination is about the fuel of blocks without calls. `Samples` runs a machine on 9 units
-- of each.
--
-- A load calls itself for each import that was not loaded, and spends one unit of fuel for each file inside
-- another. The search for falcon.yml runs on fuel for each character of the path, which has more characters
-- than parents. ReplaceAll runs on fuel for each character of the text, and goes on behind what it put in.
--
-- The file system. Regular files with their text and directories, under their canonical paths; there are
-- no links, no permissions and no full disk. An operation fails when a path is missing, is of the wrong
-- kind or has no directory to stand in. A command gives back its result or its exception together with the
-- files and tables it left.
--
-- What is a parameter. Native code (functions and methods behind the registries) and IEEE arithmetic are
-- the record `Native` and `Floats`; a double is its 64 bits. The theorems hold for any such code, which
-- cannot reach the variables of the interpreter. SHA-256, the JSON and the YAML library are the records
-- `Tools` and `Yaml`; the parser, the shell, the dynamic loader and the C interface to native routines are
-- in `Outside`, `Host` and the argument `foreign`. The C and C++ libraries that the string routines call,
-- and fmt, are `Libraries`.
--
-- What is not modelled. Log output; the text of located errors; the parser, the rest of the language
-- server (its protocol, completion, hover, definitions, and symbols of imports), the map library and
-- the C interface to the native libraries, and the communication and database libraries.
pub mod Base
pub mod Syntax
pub mod Errors
pub mod Value
pub mod Int64
pub mod Ops
pub mod Registry
pub mod Generics
pub mod Eval
pub mod Exec
pub mod Machine
pub mod Interpreter
pub mod Arrays
pub mod Files
pub mod Packages
pub mod Engine
pub mod Server
pub mod Strings
pub mod Samples
