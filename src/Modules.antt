-- ===== src/Modules.antt =====
-- HandleModuleObjects of kernel/src/obj/mod.cpp: the modules of the bootloader are mapped and recorded,
-- and the first one is read as a ramdisk. What the heap answers to the vectors is a parameter.
pub mod Laws
use system.Base.{ℕ, suc, ◌+◌, Option, none, some, ◌>>=◌, List, [], ◌∷◌, ◌==◌, if◌then◌else◌, sub64}
use system.Machine.{Machine}
use system.Vmm.{map_range, page_count}
use system.Vector.{Vector, created, push_back, at}
use system.Tar.{File, FileBlocks, tar_object}

-- limine_file, by the fields that are read.
pub record LimineFile : Type 0 where
  pub address : ℕ
  pub size : ℕ
  pub path : ℕ

pub record InternalModule : Type 0 where
  pub virtual_address : ℕ
  pub path : ℕ

-- sizeof(InternalModule)
abbrev pub module_bytes : ℕ
module_bytes = 16

-- What the heap answers when the vector of modules, holding so many, asks for a larger block.
abbrev pub ModuleBlocks : Type 0
ModuleBlocks = ℕ → Option (ℕ → InternalModule)

-- The loop over the pages of a module, in the kernel's page map.
unfoldable pub map_module : (hhdm : ℕ) → Machine → LimineFile → Machine
map_module hhdm s f = map_range (page_count f.size) hhdm s 0 f.address (sub64 f.address hhdm) 0

abbrev pub internal : LimineFile → InternalModule
internal f = record { virtual_address = f.address; path = f.path }

-- The loop over the modules.
unfoldable pub add_modules :
    ModuleBlocks
    → (hhdm : ℕ) → Machine
    → Vector InternalModule
    → List LimineFile
    → Option (Machine × Vector InternalModule)
unfolding map_module
add_modules blocks hhdm s modules [] = some (s, modules)
add_modules blocks hhdm s modules (f ∷ fs) =
    let rest : Vector InternalModule → Option (Machine × Vector InternalModule) =
      λ modules'. add_modules blocks hhdm (map_module hhdm s f) modules' fs in
    push_back module_bytes (blocks modules.current_element_count) modules (internal f) >>= rest

-- What is left behind: the machine, Modules, and the files of FirstRamdisk, if it was set.
pub record Handled : Type 0 where
  pub machine : Machine
  pub modules : Vector InternalModule
  pub first_ramdisk : Option (Vector File)

-- What new blocks of the heap hold, or that there is none: for the two vectors' first blocks, and for
-- their larger ones.
pub record HeapAnswers : Type 0 where
  pub first_module : ℕ → InternalModule
  pub module_blocks : ModuleBlocks
  pub first_file : ℕ → File
  pub file_blocks : FileBlocks

-- What is done with the module at index 0.
unfoldable pub read_ramdisk :
    (fuel ustar : ℕ)
    → HeapAnswers
    → Machine
    → Vector InternalModule
    → InternalModule
    → Option Handled
read_ramdisk fuel ustar h s modules m =
    if m.virtual_address == 0
    then some (record { machine = s; modules = modules; first_ramdisk = none })
    else (do
      disk ← tar_object fuel h.first_file h.file_blocks s.mem m.virtual_address ustar
      some (record {
        machine = record s { mem = disk.0 };
        modules = modules;
        first_ramdisk = some disk.1;
      }))

-- The ramdisk from the module at index 0, whose address is 0 for a null pointer. `none` is the end of the
-- fuel, or a failure of a vector.
unfoldable pub first_module :
    (fuel ustar : ℕ) → HeapAnswers → Machine → Vector InternalModule → Option Handled
first_module fuel ustar h s modules = do m ← at modules 0; read_ramdisk fuel ustar h s modules m

-- HandleModuleObjects with a response of the bootloader.
unfoldable pub handle_module_objects :
    (fuel ustar : ℕ) → HeapAnswers → (hhdm : ℕ) → Machine → List LimineFile → Option Handled
handle_module_objects fuel ustar h hhdm s files = do
  added ← add_modules h.module_blocks hhdm s (created h.first_module) files
  first_module fuel ustar h added.0 added.1
