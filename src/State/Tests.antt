-- ===== src/State/Tests.antt =====
-- Two contracts of one block.
use euclid_database.Prelude.{List, ℕ, replicate}
use euclid_database.State.{register_link}
use euclid_database.State.Contracts.{Contracts, contract, fork}

abbrev link : ℕ → List ℕ
link address =
    register_link (replicate 8 1) 5 (replicate 8 2) (replicate 5 address) (replicate 11 3) 6 7
      (replicate 4 8)

abbrev two_contracts : Contracts
two_contracts = fork (contract (link 10)) (contract (link 11))
