-- ===== src/State/Contracts.antt =====
-- The proofs over the contracts of one block.
use euclid_database.Prelude.{
  ℕ, ◌≡◌, List, ◌∷◌, get_or, take, ◌++◌, Circuit, ◌>>=◌, some, length, drop,
}
use euclid_database.Plonky2.{Builder}
use euclid_database.Plonky2.Poseidon.{Poseidon}
use euclid_database.State.{
  link_block_hash, link_block_number, link_prev_block_hash, state_leaf, state_node,
}

-- A state tree over the public inputs of block_linking proofs.
pub data Contracts : Type 0 where
  contract : (block_linking : List ℕ) → Contracts
  fork : (left right : Contracts) → Contracts

abbrev pub prove_contracts : Builder → Poseidon → Contracts → Circuit (List ℕ)
prove_contracts b p (contract link) = some (state_leaf p link)
prove_contracts b p (fork l r) =
    prove_contracts b p l >>= λ x. prove_contracts b p r >>= λ y. state_node b p x y

abbrev pub IsSizedContracts : Contracts → Type 0
IsSizedContracts (contract link) = length link ≡ 39
IsSizedContracts (fork l r) = IsSizedContracts l × IsSizedContracts r

-- What a leaf of the tree is over, at the places of the public inputs: the address, the slot of the
-- mapping and that of its length, and the Merkle root of the storage.
abbrev pub contract_data : List ℕ → List ℕ
contract_data link = take 5 (drop 17 link) ++ (get_or link 33 0 ∷ get_or link 34 0 ∷ drop 35 link)

-- The Merkle root over the contracts, and the block of the first one.
abbrev pub contracts_root : Poseidon → Contracts → List ℕ
contracts_root p (contract link) = p.hash_no_pad (contract_data link)
contracts_root p (fork l r) = p.hash_no_pad (contracts_root p l ++ contracts_root p r)

abbrev pub first_link : Contracts → List ℕ
first_link (contract link) = link
first_link (fork l r) = first_link l

-- Two proofs are about one block.
abbrev pub SameBlock : List ℕ → List ℕ → Type 0
SameBlock x y =
    (link_block_hash x ≡ link_block_hash y)
    × (link_prev_block_hash x ≡ link_prev_block_hash y)
    × (link_block_number x ≡ link_block_number y)

abbrev pub InBlock : List ℕ → Contracts → Type 0
InBlock x (contract link) = SameBlock x link
InBlock x (fork l r) = InBlock x l × InBlock x r

abbrev pub contracts_pis : Poseidon → Contracts → List ℕ
contracts_pis p t =
    let link = first_link t in
    contracts_root p t
    ++ (link_block_hash link ++ (link_block_number link ∷ link_prev_block_hash link))
