-- ===== src/Lib.antt =====
-- Verification library for dragongo, an LLVM back end for the Go front end gofrontend.
--
-- The front end scans and type-checks Go, asks the back end for locations, types, expressions and
-- statements through an abstract interface, and the back end builds LLVM code. This library models
-- the parts of the back end that carry logic of their own, apart from LLVM.
--
-- Linemap: `Llvm_linemap` of llvm-gofrontend/go-llvm-linemap.cpp and .h. A location is a handle, an
-- offset into a table of bytes that holds line and column in ULEB128; segments of handles tell the
-- file. The state is the record `Linemap`, with one function for each operation of the class. LLVM's
-- coder is a parameter, `Leb128`, with its round trip as hypothesis (Linemap/Leb), and has an
-- instance (Linemap/Uleb).
--
-- NameGen: `NameGen` of llvm-gofrontend/namegen.h, names that are a tag, a dot and a version.
--
-- Cabi: `CABIOracle` of llvm-gofrontend/go-llvm-cabi-oracle.cpp and .h, how a parameter travels under
-- the x86-64 SysV convention. Cabi/Types has the types it reads, with the layout that LLVM computes
-- as the parameter `DataLayout`; Cabi/Disp and Cabi/Regions the register classes; Cabi/Explode is
-- `EightByteInfo`; Cabi itself the register state, `analyzeABIParam`, `analyzeABIReturn` and
-- `analyze`.
--
-- Bnode: the nodes of llvm-gofrontend/go-llvm-bnode.cpp and .h, in an arena where an address is an
-- index, and `cloneSubtree`. Builder: `BnodeBuilder`, with each function that makes a node
-- (Builder/Make), clones (Builder/Clones) or frees one (Builder/Free); Builder/Calls has its public
-- methods as steps. A freed node leaves the archive but keeps its address in the arena, so that a use
-- behind its end is not noticed. What it asks of LLVM, which instructions are allocations, is a
-- parameter.
--
-- Integrity: `IntegrityVisitor` of llvm-gofrontend/go-llvm-tree-integrity.cpp and .h, which looks for
-- nodes with two parents and repairs shared expressions by clones. The builder reports each node it
-- archives to a visitor.
--
-- Walker: `SimpleNodeWalker` and `UpdatingNodeWalker` of llvm-gofrontend/go-llvm-bnode.h, with a visitor
-- as the record of its hooks; Walker/Visits lists the calls of the hooks.
--
-- TypeStore: the types of llvm-gofrontend/go-llvm-btype.h and .cpp in a store where an address is an
-- index: constructors, setters (TypeStore/Setters) with `clone`, `equal` and `hash` (TypeStore/Equal).
-- LLVM types are numbers here, and `std::hash` is the parameter `Hashes`.
--
-- TypeManager: `TypeManager` of llvm-gofrontend/go-llvm-typemanager.cpp and .h. Its state is a record
-- with the store and the tables. TypeManager/Anon is the set of anonymous types, TypeManager/Make,
-- Structs and Functions make types, the latter with the analysis of Cabi, Resolve and Redirect
-- resolve placeholders, Circular follows loops of pointers, Sizes asks for sizes. LLVM's own types are
-- the parameter `Llvm`: the functions that give the unique type of a structure, by its address. The
-- set of types that wait for a placeholder is in the order of their addresses, as in the source,
-- which here is the order in which they were made.
--
-- Bfunction: `Bfunction` of llvm-gofrontend/go-llvm-bfunction.cpp and .h with the variables of
-- go-llvm-bvariable.cpp: the set-up of the arguments that the oracle of Cabi asks for, and variables
-- and labels (Bfunction/Variables). A value is an argument or an alloca, by position.
--
-- In these three parts a run stops with a reason: a failed assertion, a null or dangling pointer or
-- an access behind the end of a vector, a
-- comparison that is too deep for its fuel, or no rounds left (Common/Run). In the other parts a
-- failed assertion of the source, and an access that C++ leaves undefined, is `none`. The 32-bit
-- counters and offsets wrap around where the source's do; `int` offsets are read as negative from
-- 2 ^ 31 on.
--
-- Fuel: ten digits are enough for a decimal of 32 bits (Common/Decimal), five bytes for a ULEB128
-- of 32 bits (Linemap/Uleb); the walks over nodes and the cloning take the height of
-- the tree, or a number above the rank of its root, as fuel. Comparing types takes a number above the
-- rank of one of the two where types form no cycle; completing types takes a number above that of the
-- placeholders.
--
-- Common has the names that all parts share: tests on native numbers, lists, fallible steps, texts.
-- A module named Runs holds runs on concrete inputs.
--
-- Not modelled: text that is printed or dumped; the back end proper (llvm-gofrontend/go-llvm.cpp),
-- debug information, diagnostics and the driver goparse-llvm.cpp, which mostly call LLVM; of the type
-- manager the tests on the structure of LLVM types, the printed forms of types and the debug types.
-- Of a function the prologue and the return sequence are left out, which build instructions. A node
-- carries neither its function nor the variables of a block.
pub mod Common
pub mod Linemap
pub mod NameGen
pub mod Cabi
pub mod Bnode
pub mod Integrity
pub mod Builder
pub mod Walker
pub mod TypeStore
pub mod TypeManager
pub mod Bfunction
