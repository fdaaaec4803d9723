-- ===== src/Heap/New.antt =====
-- new and delete of kernel/src/libs/kernel.cpp, on the heap.
use system.Base.{ℕ, Option}
use system.Machine.{Machine}
use system.Heap.{allocate, free}

unfoldable pub operator_new : (fuel hhdm : ℕ) → Machine → (size : ℕ) → Option (Machine × ℕ)
operator_new fuel hhdm s size = allocate fuel hhdm s size

unfoldable pub operator_delete : Machine → (object : ℕ) → Machine
operator_delete s object = free s object

-- With the object's size, which is not used.
unfoldable pub operator_delete_sized : Machine → (object size : ℕ) → Machine
operator_delete_sized s object size = free s object

-- delete[], without and with the size.
unfoldable pub operator_delete_array : Machine → (object : ℕ) → Machine
operator_delete_array s object = free s object

unfoldable pub operator_delete_array_sized : Machine → (object size : ℕ) → Machine
operator_delete_array_sized s object size = free s object

-- The destructor of Vector (kernel/include/libs/kernel.hpp), with its block at `array`.
unfoldable pub destroy_vector : Machine → (array : ℕ) → Machine
unfolding operator_delete
destroy_vector s array = operator_delete s array

-- The destructor of TarObject (kernel/src/obj/tar.cpp), with the block of its files at `array`: the body
-- destroys the vector, and so does the language when the body has ended, since the vector is a member.
unfoldable pub destroy_tar_object : Machine → (array : ℕ) → Machine
unfolding destroy_vector
destroy_tar_object s array = destroy_vector (destroy_vector s array) array
