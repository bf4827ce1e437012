-- ===== src/HashTbl.antt =====
-- src/bufHashTbl.h, src/bufHashTbl.cpp: the chained hash table from (file, page) to frame.
-- A chain of `hashBucket` nodes, linked by `next`, is a list.
pub mod Chain
pub mod Laws
pub mod Cases
use cs564_project.Prelude.{
  ℕ, ◌+◌, ◌%◌, ◌^◌, List, [], ◌∷◌, Option, none, some, Bool, ◌&&◌, ◌==◌, if◌then◌else◌, get_or, set,
  replicate,
}
use cs564_project.Exceptions.{Result, ok, err, hash_already_present, hash_not_found}

pub record HashBucket : Type 0 where
  pub file : ℕ
  pub page_no : ℕ
  pub frame_no : ℕ

pub record BufHashTbl : Type 0 where
  pub htsize : ℕ
  pub ht : List (List HashBucket)

-- The cast of the pointer to `int` and the sum with the unsigned page number wrap at 32 bits.
unfoldable pub hash : BufHashTbl → ℕ → ℕ → ℕ
hash t file page_no = ((file + page_no) % 2 ^ 32) % t.htsize

unfoldable pub new : ℕ → BufHashTbl
new htsize = record { htsize = htsize; ht = replicate htsize [] }

-- The test that each of the three walks makes at a node.
abbrev pub matches : ℕ → ℕ → HashBucket → Bool
matches file page_no b = b.file == file && b.page_no == page_no

-- The walk of `insert` and `lookup`: the first node with the key.
unfoldable pub find : ℕ → ℕ → List HashBucket → Option HashBucket
find file page_no [] = none
find file page_no (b ∷ bs) = if matches file page_no b then some b else find file page_no bs

-- The walk of `remove`: the chain with the first such node unlinked.
unfoldable pub unlink : ℕ → ℕ → List HashBucket → List HashBucket
unlink file page_no [] = []
unlink file page_no (b ∷ bs) = if matches file page_no b then bs else b ∷ unlink file page_no bs

abbrev pub chain_at : BufHashTbl → ℕ → List HashBucket
chain_at t i = get_or t.ht i []

unfoldable pub insert : BufHashTbl → ℕ → ℕ → ℕ → Result BufHashTbl
insert t file page_no frame_no =
    let index = hash t file page_no in
    elim (find file page_no (chain_at t index)) [
      | some b ↦ err (hash_already_present b.file b.page_no b.frame_no)
      | none ↦
          let node : HashBucket = record { file = file; page_no = page_no; frame_no = frame_no } in
          ok (record t { ht = set t.ht index (node ∷ chain_at t index) })
    ]

unfoldable pub lookup : BufHashTbl → ℕ → ℕ → Result ℕ
lookup t file page_no = elim (find file page_no (chain_at t (hash t file page_no))) [
  | some b ↦ ok b.frame_no
  | none ↦ err (hash_not_found file page_no)
]

unfoldable pub remove : BufHashTbl → ℕ → ℕ → Result BufHashTbl
remove t file page_no =
    let index = hash t file page_no in
    elim (find file page_no (chain_at t index)) [
      | some b ↦ ok (record t { ht = set t.ht index (unlink file page_no (chain_at t index)) })
      | none ↦ err (hash_not_found file page_no)
    ]
