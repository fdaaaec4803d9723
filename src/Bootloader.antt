-- ===== src/Bootloader.antt =====
-- kernel/src/early/bootloader_data.cpp: the requests that the bootloader fills in, and the pointers that
-- GetBootloaderData collects; and how _start reads what they lead to (kernel/include/limine.h).
use system.Base.{ℕ, zero, suc, ◌+◌, Option, none, some, List, [], ◌∷◌, ◌==◌, if◌then◌else◌}
use system.Memory.{Memory, load64}
use system.Pmm.{MemmapEntry}
use system.Modules.{LimineFile}
use system.Start.{BootloaderData}

-- The four words of a request's identifier, of which two are the same for all.
pub record RequestId : Type 0 where
  pub common0 : ℕ
  pub common1 : ℕ
  pub word2 : ℕ
  pub word3 : ℕ

abbrev pub request_id : (word2 word3 : ℕ) → RequestId
request_id word2 word3 = record {
  common0 = 0xc7b1dd30df4c8b88;
  common1 = 0x0a82e883a194f07b;
  word2 = word2;
  word3 = word3;
}

-- A request, with a null pointer before the bootloader has answered. The further fields, of the SMP request
-- and the module request, are 0 as well.
pub record Request : Type 0 where
  pub id : RequestId
  pub revision : ℕ
  pub response : ℕ

abbrev pub request : RequestId → Request
request id = record { id = id; revision = 0; response = 0 }

abbrev pub framebuffer_request : Request
framebuffer_request = request (request_id 0x9d5827dcd881dd75 0xa3148604f6fab11b)

abbrev pub memmap_request : Request
memmap_request = request (request_id 0x67cf3d9d378a806f 0xe304acdfc50c3c62)

abbrev pub smp_request : Request
smp_request = request (request_id 0x95a67b819a1b857e 0xa0b61b723b6a73e0)

abbrev pub kaddr_request : Request
kaddr_request = request (request_id 0x71ba76863cc55f63 0xb2644a48c516a487)

abbrev pub hhdm_request : Request
hhdm_request = request (request_id 0x48dcf1cb8ad2b852 0x63984e959a98244b)

abbrev pub rsdp_request : Request
rsdp_request = request (request_id 0xc5e77b6b397e7b43 0x27637845accdcf3c)

abbrev pub module_request : Request
module_request = request (request_id 0x3e7e279702be32af 0xca1c4f3bd1280cee)

-- What the bootloader does to a request, with the answer that it gives to an identifier.
abbrev pub answered : (answer : RequestId → ℕ) → Request → Request
answered answer r = record r { response = answer r.id }

-- BootloaderData of bootloader_data.hpp: the pointers to the responses.
pub record Responses : Type 0 where
  pub fb_data : ℕ
  pub memmap : ℕ
  pub smp : ℕ
  pub kernel_addr : ℕ
  pub hhdm_response : ℕ
  pub rsdp_response : ℕ
  pub module_response : ℕ

-- GetBootloaderData, after the bootloader has answered the requests.
unfoldable pub get_bootloader_data : (answer : RequestId → ℕ) → Responses
get_bootloader_data answer = record {
  fb_data = (answered answer framebuffer_request).response;
  memmap = (answered answer memmap_request).response;
  smp = (answered answer smp_request).response;
  kernel_addr = (answered answer kaddr_request).response;
  hhdm_response = (answered answer hhdm_request).response;
  rsdp_response = (answered answer rsdp_request).response;
  module_response = (answered answer module_request).response;
}

-- The entries of the memory map, by the array of pointers to them, with the entries left.
unfoldable pub read_entries : (count : ℕ) → Memory → (entries : ℕ) → List MemmapEntry
read_entries zero m entries = []
read_entries (suc count) m entries =
    let e = load64 m entries in
    record { base = load64 m e; length = load64 m (e + 8); kind = load64 m (e + 16) }
    ∷ read_entries count m (entries + 8)

-- The same for the modules.
unfoldable pub read_files : (count : ℕ) → Memory → (modules : ℕ) → List LimineFile
read_files zero m modules = []
read_files (suc count) m modules =
    let f = load64 m modules in
    record { address = load64 m (f + 8); size = load64 m (f + 16); path = load64 m (f + 24) }
    ∷ read_files count m (modules + 8)

-- What _start hands to the components of the responses.
unfoldable pub read_bootloader_data : Memory → Responses → BootloaderData
unfolding read_entries
read_bootloader_data m r = record {
  memmap = read_entries (load64 m (r.memmap + 8)) m (load64 m (r.memmap + 16));
  virtual_base = load64 m (r.kernel_addr + 16);
  physical_base = load64 m (r.kernel_addr + 8);
  offset = load64 m (r.hhdm_response + 8);
  rsdp = load64 m (r.rsdp_response + 8);
}

-- The number of cores, if the bootloader has answered the SMP request.
unfoldable pub read_core_count : Memory → Responses → Option ℕ
read_core_count m r = if r.smp == 0 then none else some (load64 m (r.smp + 16))

-- The modules, if the bootloader has answered the module request.
unfoldable pub read_modules : Memory → Responses → Option (List LimineFile)
unfolding read_files
read_modules m r =
    if r.module_response == 0
    then none
    else some (read_files (load64 m (r.module_response + 8)) m (load64 m (r.module_response + 16)))
