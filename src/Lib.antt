-- ===== src/Lib.antt =====
-- Canonical Payload Binding, the Python library under lib/cpb.
--
-- The library binds a JSON artifact to a SCITT Signed Statement. A raw JSON text is read by a strict
-- scanner (lib/cpb/_lex.py), which returns the value and the violations of the wire format that it
-- met. lib/cpb/canonicalize.py refuses a text by those violations, drops the excluded fields, prints
-- the value in a canonical form (jcs or the withdrawn jcs-n) and hashes it. lib/cpb/check.py reports
-- the violations of the record grammar. lib/cpb/derive_id.py and lib/cpb/typed_ref.py construct and
-- verify identifiers and typed references from such digests, with lib/cpb/vintage.py as the gate of
-- the withdrawn algorithm. lib/cpb/cose_refs.py decodes a COSE_Sign1 message, checks its headers and
-- extracts the references that it carries. lib/cpb/registry.py checks registry snapshots and makes
-- the artifact-type definitions that a typed reference is verified against.
--
-- .github/check_vectors.py checks the test vectors without calling the library: it has its own CBOR
-- codec, jcs-n form, member mappings, choice of a digest context and decoder of carrier fixtures.
-- Those are modelled beside the library, and compared with it.
--
-- Which module models which part:
--   Value (Keys, Reorder)      parsed JSON values; a dict is its members in insertion order
--   Errors                     the exceptions, as values, and the Result that carries them
--   Python, Unicode            int(), str() and the codecs, on code points and octets
--   Platform                   sha256, rfc8785.dumps and the tables of the Python runtime
--   Lex                        lib/cpb/_lex.py: Number, Quoted (strings), Scanner
--   Canonicalize               lib/cpb/canonicalize.py: Normalize, Serialize, Digest (Gate, Exclusion)
--   Check                      lib/cpb/check.py: Walk (the P rule), NormalForm
--   Vintage, DeriveId          lib/cpb/vintage.py and lib/cpb/derive_id.py
--   TypedRef                   lib/cpb/typed_ref.py: Hex, Context, Definition, Select, Reference,
--                              Verify
--   Cbor                       the codec of lib/cpb/cose_refs.py: Item, Head, Encode, Decode
--   Cose                       the rest of lib/cpb/cose_refs.py: Sign1, Headers, Uri, Baseline, Mode,
--                              Refs, Statement
--   Registry                   lib/cpb/registry.py: Snapshot, Lookup
--   Command                    lib/cpb/_cli.py: the exit codes of cpb-check and of its self test
--   Vectors                    .github/check_vectors.py: Cbor and Encode (the strict codec), Canonical,
--                              Pointer, Mapping, Derivation, Contexts, Carrier and Mirror (Category M
--                              fixtures)
--   Common                     lists, Booleans, texts and integers over the native numbers
--   Runs, Tests                runs at concrete inputs, and an instance of each result
--
-- A definition has the name of its Python function without the leading underscore. A text is the list
-- of its code points and bytes are the list of their octets. An exception is `err`, with its class
-- and, where a caller reads it, its data; the messages are left out. State is passed: the scanner's
-- position, depth and violations, the decoder's position and item budget. A verification callback is
-- a function argument, `none` when it raises.
--
-- Recursion that is not structural runs on fuel and answers `out_of_fuel` when there is none left.
-- The loop over a string token starts with a unit for each character and one more.
-- The scanner starts with two units for each character and two more: in two calls one after the other
-- of `parse`, `members` and `elements`, at least one consumes a character. The CBOR decoder starts
-- with two for each item of its budget and four more, as every item costs one unit of the budget; so
-- does the strict decoder of the vector checks.
--
-- Parameters, since their code is not in the repository: hashlib.sha256, rfc8785.dumps,
-- json.dumps of a library key, of a float and of a snapshot's body, str() of a vector's raw input
-- that is no string, equality of floating-point literals, the Unicode digit and space tables, the
-- bracket check of urllib and IPv6Address. `IsSha256` is the one hypothesis on them: a digest has
-- 32 octets.
--
-- Not modelled: what the command line prints, file reading in RegistrySnapshot.load, the runs of
-- .github/check_vectors.py over the vector files, the other scripts under .github, vectors and site,
-- and the tests.
pub mod Common
pub mod Value
pub mod Errors
pub mod Python
pub mod Unicode
pub mod Platform
pub mod Lex
pub mod Canonicalize
pub mod Check
pub mod Vintage
pub mod DeriveId
pub mod TypedRef
pub mod Cbor
pub mod Cose
pub mod Registry
pub mod Vectors
pub mod Command
pub mod Runs
pub mod Tests
