-- ===== src/Modules/Laws.antt =====
-- What HandleModuleObjects (kernel/src/obj/mod.cpp) leaves.
use system.Base.{ℕ, ◌≡◌, some, List, [], ◌∷◌}
use system.Machine.{Machine}
use system.Vector.{Vector}
use system.Vector.Growth.{Holds}
use system.Modules.{LimineFile, InternalModule, ModuleBlocks, map_module, add_modules}

-- The machine once the modules are mapped, one after the other.
abbrev pub map_modules : (hhdm : ℕ) → Machine → List LimineFile → Machine
map_modules hhdm s [] = s
map_modules hhdm s (f ∷ fs) = map_modules hhdm (map_module hhdm s f) fs

-- The vector that add_modules makes.
record Added (blocks : ModuleBlocks) (hhdm : ℕ) (s : Machine) (v : Vector InternalModule)
    (fs : List LimineFile) (xs : List InternalModule) : Type 0 where
  result : Vector InternalModule
  added : add_modules blocks hhdm s v fs ≡ some (map_modules hhdm s fs, result)
  held : Holds result xs
