-- ===== src/Examples/Heap.antt =====
-- The theorems on the heap at concrete inputs: one free block of 256 bytes at 4096.
use system.Base.{ℕ, suc, ◌*◌, ◌<◌, length, ◌∙◌, ◌+◌, ◌≡◌, refl, arith, none, some, [], ◌∷◌}
use system.Machine.{Machine}
use system.Blocks.{ChangedOnly}
use system.Memory.{load64, load64-same}
use system.Pmm.{initialize_pmm}
use system.Heap.{insert_node, expand_heap, carve, allocate, free, reallocate}
use system.Heap.Grow.{Grown, expand_heap-Grown}
use system.Heap.Exhausted.{allocate-grows}
use system.Heap.Overrun.{carve-overrun}
use system.Heap.Resize.{Moved, reallocate-Moved}
use system.Heap.New.{operator_new, operator_delete, destroy_tar_object}
use system.Heap.Reuse.{Reused, operator_new-operator_delete}
use system.Heap.DoubleFree.{destroy_tar_object-corrupts}
use system.Heap.Lists.{HeapList, insert_node-HeapList, insert_node-changed, Chain-at}
use system.Heap.FirstFit.{allocate-first_fit, free-HeapList}
use system.Heap.Serve.{Served}
use system.Examples.{hhdm, hhdm-IsHhdm, cold, warm, block, warm-FreeList}

cold-HeapList : HeapList cold []
cold-HeapList = record { chain = refl; blocks = tt; apart = tt }

abbrev small_heap : Machine
small_heap = insert_node cold 4096 256

small_heap-HeapList : HeapList small_heap ((4096, 256) ∷ [])
small_heap-HeapList = insert_node-HeapList [] 4096 256 (omega arith) tt cold-HeapList

allocate-first_fit_example :
    (s' : Machine) × (allocate 1 hhdm small_heap 100 ≡ some (s', 4096 + 16))
    × Served small_heap 4096 256 100 ((4096, 256) ∷ []) [] s'
allocate-first_fit_example =
    allocate-first_fit 1 hhdm [] [] 4096 256 100 (omega arith) tt (omega arith) small_heap-HeapList

-- A block in use at 8192, beside the free one.
abbrev busy : Machine
busy = insert_node cold 8192 64

busy-HeapList : HeapList busy ((8192, 64) ∷ [])
busy-HeapList = insert_node-HeapList [] 8192 64 (omega arith) tt cold-HeapList

abbrev emptied : Machine
emptied = record busy { heap_head = 0 }

emptied-HeapList : HeapList emptied []
emptied-HeapList = record { chain = refl; blocks = tt; apart = tt }

free-HeapList_example :
    HeapList (free emptied (8192 + 16)) ((8192, 64) ∷ [])
    × ChangedOnly 8192 64 emptied.mem (free emptied (8192 + 16)).mem
free-HeapList_example =
    free-HeapList [] 8192 64 (Chain-at [] [] busy.mem busy.heap_head 8192 64 busy-HeapList.chain)
      (omega arith) tt emptied-HeapList

-- A heap without blocks, on a machine with sixteen free pages.
warm-HeapList : HeapList warm []
unfolding initialize_pmm
warm-HeapList = record { chain = refl; blocks = tt; apart = tt }

expand_heap-Grown_example : Grown hhdm warm block (16 * 4096) [] [] 10 (expand_heap hhdm warm 10)
expand_heap-Grown_example =
    expand_heap-Grown [] [] block (16 * 4096) 10 hhdm-IsHhdm (omega arith) (omega arith)
      warm-FreeList warm-HeapList tt

allocate-grows_example :
    (s' : Machine) × (allocate (suc (length {A = ℕ × ℕ} [] + suc 4)) hhdm warm 100
      ≡ some (s', block + 16))
    × Served warm block 40960 100 ((block, 16 * 4096) ∷ []) [] s'
allocate-grows_example =
    allocate-grows 4 [] [] block (16 * 4096) 100 hhdm-IsHhdm warm-FreeList (omega arith)
      warm-HeapList tt tt (omega arith)

carve-overrun_example :
    (4096 + 256 < 4096 + 16 + 230 + 8 + 8)
    × (load64 (carve small_heap 4096 230).mem (4096 + 16 + 230 + 8) ≡ small_heap.heap_head)
unfolding insert_node
carve-overrun_example =
    carve-overrun small_heap 4096 256 230
      (Chain-at [] [] small_heap.mem small_heap.heap_head 4096 256 small_heap-HeapList.chain)
      (omega arith) (omega arith) (omega arith) (omega arith) (omega arith)

-- An object of 48 bytes at 8208, and a free block at 4096.
abbrev half_full : Machine
half_full = insert_node emptied 4096 256

half_full-HeapList : HeapList half_full ((4096, 256) ∷ [])
half_full-HeapList = insert_node-HeapList [] 4096 256 (omega arith) tt emptied-HeapList

half_full-header : load64 half_full.mem 8192 ≡ 16 + 48
half_full-header =
    load64-same emptied.mem half_full.mem 8192
      (λ x lo hi. insert_node-changed emptied 4096 256 x (omega arith))
    ∙ Chain-at [] [] busy.mem busy.heap_head 8192 64 busy-HeapList.chain

reallocate-Moved_example :
    (s' : Machine) × (reallocate 1 hhdm half_full (8192 + 16) 100 ≡ some (s', 4096 + 16))
    × Moved half_full 4096 256 8192 48 100 [] s'
reallocate-Moved_example =
    reallocate-Moved 1 hhdm [] [] 4096 256 8192 48 100 (omega arith) tt (omega arith) (omega arith)
      half_full-HeapList half_full-header (omega arith) (omega arith, tt)

operator_new-operator_delete_example :
    (s1 s3 : Machine) × (operator_new 1 hhdm small_heap 100 ≡ some (s1, 4096 + 16))
    × (operator_new 1 hhdm (operator_delete s1 (4096 + 16)) 100 ≡ some (s3, 4096 + 16))
    × Reused small_heap (operator_delete s1 (4096 + 16)) s3 4096 256 100 ((4096, 256) ∷ []) []
operator_new-operator_delete_example =
    operator_new-operator_delete 1 1 hhdm [] [] 4096 256 100 (omega arith) (omega arith) tt
      (omega arith) small_heap-HeapList

destroy_tar_object-corrupts_example :
    (¬ HeapList (destroy_tar_object emptied (8192 + 16)) ((8192, 64) ∷ []))
    × (allocate 1000000 hhdm (destroy_tar_object emptied (8192 + 16)) 100 ≡ none)
destroy_tar_object-corrupts_example =
    destroy_tar_object-corrupts [] ((8192, 64) ∷ []) 8192 64 1000000 hhdm 100
      (Chain-at [] [] busy.mem busy.heap_head 8192 64 busy-HeapList.chain) (omega arith) tt
      emptied-HeapList (omega arith) (omega arith)
