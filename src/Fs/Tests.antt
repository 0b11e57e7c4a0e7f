-- ===== src/Fs/Tests.antt =====
-- The table of files at a concrete kernel, whose first file is in use.
use riscv_hobby_os.Base.{ℕ, ◌≡◌, refl, Option, done}
use riscv_hobby_os.Kernel.{Kernel}
use riscv_hobby_os.Kernel.Examples.{some_kernel}
use riscv_hobby_os.Fs.{fs_alloc_file}
use riscv_hobby_os.Fs.Alloc.{Fresh, fs_alloc_file-Fresh}

fs_alloc_file-Fresh_example :
    (o : Option ℕ) × (k' : Kernel) × (fs_alloc_file some_kernel ≡ done o k')
    × Fresh some_kernel o k'
fs_alloc_file-Fresh_example = fs_alloc_file-Fresh some_kernel refl
