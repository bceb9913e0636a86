-- ===== src/Lib.antt =====
-- Verification of the circuits and helpers of the Euclid database.
--
-- The repository proves facts about Ethereum storage in zero knowledge: circuits written with plonky2
-- decode Merkle-Patricia-trie nodes (RLP), follow a key from a leaf to the root, and rebuild what they
-- read as a Poseidon Merkle tree. This development models the gadgets by their values. A gadget is a
-- function from the values of its input wires to those of its outputs, in `Circuit`, which is `none`
-- where no assignment satisfies the constraints that the gadget adds, or where an assertion of the
-- source stops the build. Loops over arrays are structural recursions on the list of values. Fuel is
-- used in `bit_length`, where a number halves at most as often as its value, and in the sponge of
-- MerkleTree, which absorbs a wire at least and outputs one at least in each round.
--
-- Prelude: lists and Booleans over native numbers, `Circuit`, binary digits, arrays built by index.
-- Plonky2: the circuit builder as a record of operations with their documented laws (it is a
--   dependency, not code of the repository), and a concrete builder that meets them. Plonky2/Poseidon
--   does the same for the Poseidon sponge. Field elements are canonical numbers below the Goldilocks order.
-- Utils: mrp2-utils/src/utils.rs. Compare has the comparison gadgets, Pack the packing of bytes into
--   words and nibbles (with mrp2-utils/src/mpt_sequential/utils.rs; Pack/Words relates both), Search the
--   subvector search.
-- Array: mrp2-utils/src/array.rs. Definitions are in Array and Array/Vectors, proofs in Access, Reads,
--   Slices, Padding and Bytes.
-- Rlp: mrp2-utils/src/rlp.rs. Header compares the decoder with the ranges of the prefix byte, Encode
--   with the RLP encoding of one item, FixedList with that of a list, Compact with the nibbles of a
--   key's bytes, and HexPrefix with Ethereum's hex-prefix encoding of keys.
-- Keccak: mrp2-utils/src/keccak.rs. Padding has the padded array, Blocks the block flags and the gadget,
--   Reference a Keccak hash as a record with the laws of its two forms, Hashing the gadget against it.
-- Mpt: mrp2-utils/src/mpt_sequential (mod.rs, key.rs, leaf_or_extension.rs). Key has the key wires,
--   Nibbles those made from the words of a hash, Selects what constraints and selections say, and
--   Verify the chain of nodes of an accepted proof, Steps what one of these nodes is (with
--   its gadgets in Gadgets), and Traced the
--   path of nodes from the leaf to the root.
-- StorageKey: mr-plonky2-circuits/src/storage/key.rs and the slots of mrp2-utils/src/eth.rs, the key of a
--   slot in the storage trie. Derivation compares the circuit with the code outside it.
--   Reference has the bytes of a number.
-- Mapping: mr-plonky2-circuits/src/storage/mapping (public_inputs.rs, leaf.rs, extension.rs, branch.rs),
--   which prove the entries of a mapping from the leaves up. PublicInputs has the layout of their inputs,
--   Leaf the leaf with its value (Value) and its key (OtherKey), Children the loop of a branch, and Proofs
--   trees of proofs with the entries they hold (Sound and Entries).
-- Lpn: mr-plonky2-circuits/src/storage/lpn, the tree that is rebuilt from the entries. StorageTree has
--   the proofs of a whole tree.
-- LengthExtract: mr-plonky2-circuits/src/storage/length_extract.rs, the number in the leaf of a proof
--   for a simple slot. Value has the number, Slot the whole circuit.
-- LengthMatch: mr-plonky2-circuits/src/storage/length_match.rs, with the inputs of length_extract.rs.
-- MerkleTree: mrp2-utils/src/merkle_tree/state_tree.rs and mrp2-utils/src/poseidon.rs, an opening of
--   variable depth. StateTree has the hash of two nodes and the loops, Openings the whole circuit.
-- DigestEqual: mr-plonky2-circuits/src/storage/digest_equal.rs, which compares the digest of a matching
--   with that of a rebuilt tree. Equality goes from the proofs of storage to the comparison.
-- GroupHashing: mrp2-utils/src/group_hashing (mod.rs, curve_add.rs), sums and comparison of points. The map
--   to the curve and the sum of two points are the record Group.
-- BlockLinking: mr-plonky2-circuits/src/state/block_linking (block.rs, account.rs, mod.rs), a block's header,
--   the account of a contract in its state trie, and the storage root in the account. The readers of
--   digest_equal.rs are here. Number has the number of the block, Roots and
--   Links what an accepted link shows.
-- State: mr-plonky2-circuits/src/state, the public inputs of block_linking and the circuits of lpn, the
--   tree over the contracts of a block. Contracts has the proofs of a whole tree.
-- BlockTree: mr-plonky2-circuits/src/block (mod.rs, public_inputs.rs). A chain of proofs appends the
--   blocks to a tree, one proof on the other, the first on a proof of a dummy circuit. The recursive
--   verifier belongs to plonky2: the relation Proved of Steps holds of the public inputs that have a
--   proof, over all choices of the prover's wires. Accepts has what one step accepts, Chain the blocks
--   of a chain of steps, Openings the trees with one leaf changed, Append the tree of all the blocks,
--   Paths and Extension the openings and the chain of an honest prover. plonky2's gadget for Merkle
--   openings is the record MerkleProofs of Plonky2/Merkle.
-- Query: mr-plonky2-circuits/src/query2. Storage (query2/storage) has the circuits over the entries of a
--   contract, Blocks (query2/state and query2/block) the opening of their root in the state tree
--   of a block and the nodes over blocks, Revelation (query2/revelation) the last circuit and
--   RevelationLayout the layout of its public inputs. Entries, Aggregates and Answers have the proofs
--   over trees of entries and of blocks, Leaves and Inclusion their blocks in the block tree, Revealed
--   and Answer the revelation.
--
-- Statements on Merkle trees have no hypothesis on the hash: where its strength is used, the
-- conclusion is the property or else two lists with one hash, or a list with the hash of zeros, which
-- the proof computes from the wires. A depth d of a tree with leaf indices stands with 2^d below the
-- order of the field, so at most 63.
--
-- Not modelled: the plonky2 prover and verifier, serialization, assignment of witnesses (but the flags of
-- StateTreeWires, the bits of a block's index and the inputs of the dummy proof), the recursion framework,
-- the queries of a provider,
-- Go code and Solidity contracts, test utilities and benchmarks. Arrays are assumed shorter than 2^61, far above
-- every size that the repository uses.
pub mod Prelude
pub mod Plonky2
pub mod Utils
pub mod Array
pub mod Rlp
pub mod MerkleTree
pub mod State
pub mod BlockLinking
pub mod BlockTree
pub mod GroupHashing
pub mod Query
pub mod Keccak
pub mod Mpt
pub mod StorageKey
pub mod Mapping
pub mod Lpn
pub mod LengthExtract
pub mod LengthMatch
pub mod DigestEqual
